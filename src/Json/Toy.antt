-- ===== src/Json/Toy.antt =====
-- A small concrete instance of the interface, so that tests can run: every value is a text, its own
-- canonical form, and compares as a text.
use aion_trust.Prelude.{ℕ, none, some, [], ◌∷◌, if◌then◌else◌, Text, codes}
use aion_trust.Json.{Json}

abbrev pub toy_json : Json
toy_json = record {
  Value = Text;
  Float = ℕ;
  null = [];
  string = λ t. t;
  boolean = λ b. if b then codes "true" else codes "false";
  number = λ n. n ∷ [];
  strings = λ texts. [];
  to_jcs_bytes = λ v. some v;
  as_i64 = λ v. none;
  as_f64 = λ v. none;
  as_str = λ v. some v;
  partial_cmp = λ x y. none;
}
