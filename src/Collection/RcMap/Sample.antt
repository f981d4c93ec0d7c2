-- ===== src/Collection/RcMap/Sample.antt =====
-- An array of three elements of eight bytes.
use cextras.Base.{ℕ, refl, [], ◌∷◌, arith}
use cextras.Collection.RcMap.{RcMap}
use cextras.Collection.RcMap.Inv.{IsValid}

-- Element 1 has two references, element 2 has one.
abbrev pub three : RcMap ℕ
three = record {
  data_at = 4096;
  elements = 0 ∷ 21 ∷ 22 ∷ [];
  size = 3;
  element_size = 8;
  ref_count = 0 ∷ 2 ∷ 1 ∷ [];
  cleaned = [];
}

pub three-IsValid : IsValid three
three-IsValid = record {
  counters = refl;
  places = refl;
  element_pos = omega arith;
  in_memory = omega arith;
}
