-- ===== src/Storage/Names.antt =====
-- The file, its backup and its temporary file are three files.
use night_mare_network.Base.{
  ℕ, ◌≡◌, ◌≢◌, refl, sym, ap, false, Bytes, bytes_eq, bytes_eq_iff, [], ◌∷◌, ◌++◌, length,
  length-append, arith, Bool-cases, inl, inr,
}
use night_mare_network.Storage.{backup_of, temporary_of}

bytes_eq-false : (a b : Bytes) → a ≢ b → bytes_eq a b ≡ false
bytes_eq-false a b n = elim (Bool-cases (bytes_eq a b)) [
  | inl y ↦ absurd (n ((bytes_eq_iff a b).0 y))
  | inr e ↦ e
]

last_differs : (name : Bytes) → backup_of name ≢ temporary_of name
last_differs [] e = omega (arith, ap (λ (d : Bytes). second d) e)
  where
    second : Bytes → ℕ
    second [] = 0
    second (c ∷ []) = 0
    second (c ∷ d ∷ r) = d
last_differs (c ∷ name) e = last_differs name (cc (e))

-- The three names of a file are told apart.
pub record Apart (name : Bytes) : Type 0 where
  pub name_backup : bytes_eq name (backup_of name) ≡ false
  pub backup_name : bytes_eq (backup_of name) name ≡ false
  pub name_temporary : bytes_eq name (temporary_of name) ≡ false
  pub temporary_name : bytes_eq (temporary_of name) name ≡ false
  pub backup_temporary : bytes_eq (backup_of name) (temporary_of name) ≡ false
  pub temporary_backup : bytes_eq (temporary_of name) (backup_of name) ≡ false

longer : (name tail : Bytes) → length tail ≡ 4 → name ≢ name ++ tail
longer name tail four e = omega (arith, four, length-append name tail, ap (length {A = ℕ}) e)

pub names-Apart : (name : Bytes) → Apart name
names-Apart name = record {
  name_backup = bytes_eq-false name (backup_of name) (longer name _ refl);
  backup_name = bytes_eq-false (backup_of name) name (λ e. longer name _ refl (sym e));
  name_temporary = bytes_eq-false name (temporary_of name) (longer name _ refl);
  temporary_name = bytes_eq-false (temporary_of name) name (λ e. longer name _ refl (sym e));
  backup_temporary = bytes_eq-false (backup_of name) (temporary_of name) (last_differs name);
  temporary_backup =
      bytes_eq-false (temporary_of name) (backup_of name) (λ e. last_differs name (sym e));
}
