-- ===== src/Models/Lookup.antt =====
-- Lookups by primary key after a change of one row.
use mathlib.Core.Option
use di_wei_wei_nano_market.Prelude.{ℕ, ◌≡◌, List, [], ◌∷◌, arith, ◌==◌, if◌then◌else◌, find, modify}
use di_wei_wei_nano_market.Models.Tables.{Nano}
use di_wei_wei_nano_market.Models.Database.{nano_at}

pub find-modify_nano :
    (i j : ℕ) (f : Nano → Nano) (ns : List Nano)
    → ((n : Nano) → (f n).id ≡ n.id)
    → find (nano_at j) (modify (nano_at i) f ns)
      ≡ (if i == j then Option.map f (find (nano_at j) ns) else find (nano_at j) ns)
find-modify_nano i j f [] h = ground arith
find-modify_nano i j f (n ∷ ns) h = ground (arith, h n, find-modify_nano i j f ns h)
