-- ===== src/Dashboard/Passwords.antt =====
-- internal/dashboard/auth.go: the password that was set is the one that signs in, and what the
-- passwords that a start makes up look like.
use Prim.Native.Nat.{ℕ, zero, suc}
use devin2proxy.Prelude.{
  ◌%◌, ◌≤◌, ◌<◌, ◌≡◌, refl, sym, ap, ◌∙◌, Bool, true, false, not, ◌&&◌, ◌||◌, none, some, inl, inr,
  [], ◌∷◌, leb, ◌==◌, length, get_or, Bytes, bytes_eq, bytes_eq_refl, arith, Option-cases,
}
use devin2proxy.Dashboard.Store.{Store, Json, Files, PasswordRecord, save, set_password}
use devin2proxy.Dashboard.Session.{
  Crypto, hash_password, verify_password, verify_decoded, matches_key, set_password_text,
  generate_password, spell, alphabet, password_iterations, password_key_len, password_algo,
  min_password_length,
}

-- A letter or digit that is not one of those easily misread: O, 0, I, l, 1.
abbrev pub is_clear : ℕ → Bool
is_clear c =
    ((leb b'a' c && leb c b'z') || (leb b'A' c && leb c b'Z') || (leb b'2' c && leb c b'9'))
    && not (c == b'l')
    && not (c == b'O')
    && not (c == b'I')

-- What the passwords rely on of `encoding/base64` and `crypto/pbkdf2`.
pub record PasswordLaws (c : Crypto) : Type 0 where
  pub decode-encode : (b : Bytes) → c.raw_std_decode (c.raw_std_encode b) ≡ some b
  pub encode_nonempty : (b : Bytes) → 0 < length b → bytes_eq (c.raw_std_encode b) [] ≡ false
  pub key_length :
      (password salt key : Bytes) (iter n : ℕ)
      → c.derive password salt iter n ≡ some key
      → length key ≡ n

abbrev record_of : Crypto → Bytes → Bytes → PasswordRecord
record_of c salt key = record {
  algo = password_algo;
  iter = password_iterations;
  salt = c.raw_std_encode salt;
  hash = c.raw_std_encode key;
}

and_left : (x y : Bool) → (x && y) ≡ true → x ≡ true
and_left x y h = ground arith

and_right : (x y : Bool) → (x && y) ≡ true → y ≡ true
and_right x y h = ground arith

both : (x y : Bool) → x ≡ true → y ≡ true → (x && y) ≡ true
both x y h k = ground arith

save_password :
    (j : Json) (a : Files) (s : Store) → (save j a s).1.contents.password ≡ s.contents.password
unfolding save
save_password j a s = ground arith

module _ (c : Crypto) (laws : PasswordLaws c) where
  matches_key-derived :
      (password salt key : Bytes)
      → c.derive password salt password_iterations password_key_len ≡ some key
      → matches_key c password_iterations password salt key ≡ true
  unfolding matches_key
  matches_key-derived password salt key derived =
      let size = laws.key_length password salt key password_iterations password_key_len derived in
      let e : c.derive password salt password_iterations (length key) ≡ some key =
        ap (c.derive password salt password_iterations) size ∙ derived in
      rw (e, matches_key) (bytes_eq_refl key)

  verify_password-record :
      (password salt key : Bytes)
      → 0 < length salt
      → c.derive password salt password_iterations password_key_len ≡ some key
      → verify_password c (some (record_of c salt key)) password ≡ true
  unfolding verify_password verify_decoded
  verify_password-record password salt key salted derived =
      let size = laws.key_length password salt key password_iterations password_key_len derived in
      rw (laws.encode_nonempty salt salted, laws.encode_nonempty key (omega (arith, size)))
        (rw (laws.decode-encode salt, laws.decode-encode key)
          (matches_key-derived password salt key derived))

  module _ (j : Json) (a : Files) (salt : Bytes) (s : Store) (password : Bytes) where
    -- An accepted password is stored by a record that its derived key makes.
    set_password_text-none :
        (set_password_text c j a (some salt) s password).0 ≡ none
        → (key : Bytes) × (c.derive password salt password_iterations password_key_len ≡ some key)
          × ((set_password_text c j a (some salt) s password).1.contents.password
              ≡ some (record_of c salt key))
          × (min_password_length ≤ length password)
    unfolding set_password_text hash_password set_password
    set_password_text-none fine =
        elim (Option-cases (c.derive password salt password_iterations password_key_len)) [
          | inl e ↦ absurd (ground (arith, fine, e))
          | inr (key, e) ↦ (
            key,
            e,
            ground (
              arith,
              fine,
              e,
              save_password j a (record s {
                contents = record s.contents { password = some (record_of c salt key) };
              }),
            ),
            ground (arith, fine, e),
          )
        ]

    -- A password that `SetPasswordText` took is at least eight bytes long and verifies against the
    -- record that it stored.
    pub verify_password-set_password_text :
        0 < length salt
        → (set_password_text c j a (some salt) s password).0 ≡ none
        → (8 ≤ length password)
          × (verify_password c
                (set_password_text c j a (some salt) s password).1.contents.password
                password
              ≡ true)
    verify_password-set_password_text salted fine =
        let (key, derived, stored, long) = set_password_text-none fine in
        (long, rw stored (verify_password-record password salt key salted derived))

abbrev pub all_clear : Bytes → Bool
all_clear [] = true
all_clear (b ∷ s) = is_clear b && all_clear s

clear_table : all_clear alphabet ≡ true
clear_table = refl

get_or-clear :
    (xs : Bytes) (i : ℕ) → all_clear xs ≡ true → i < length xs → is_clear (get_or xs i 0) ≡ true
get_or-clear [] i all h = absurd (omega arith)
get_or-clear (x ∷ xs) zero all h = and_left (is_clear x) (all_clear xs) all
get_or-clear (x ∷ xs) (suc i) all h =
    get_or-clear xs i (and_right (is_clear x) (all_clear xs) all) (omega arith)

spell-clear : (raw : Bytes) → (all_clear (spell raw) ≡ true) × (length (spell raw) ≡ length raw)
unfolding spell
spell-clear [] = (refl, refl)
spell-clear (b ∷ raw) = (
  both (is_clear (get_or alphabet (b % length alphabet) 0)) (all_clear (spell raw))
      (get_or-clear alphabet (b % length alphabet) clear_table (omega arith)) (spell-clear raw).0,
  ap suc (spell-clear raw).1,
)

-- The password that `GeneratePassword` makes of twenty random bytes has
-- a letter for each byte, none of them easily misread, and verifies against the stored record
-- when it is reported to have been stored.
pub generate_password_lem :
    (c : Crypto) (j : Json) (a : Files) (raw salt : Bytes) (s : Store) (password : Bytes)
    → PasswordLaws c
    → 0 < length salt
    → (generate_password c j a (some raw) (some salt) s).0 ≡ (password, none)
    → (length password ≡ length raw)
      × (all_clear password ≡ true)
      × (verify_password c
            (generate_password c j a (some raw) (some salt) s).1.contents.password
            password
          ≡ true)
unfolding generate_password
generate_password_lem c j a raw salt s password laws salted made =
    elim (Option-cases (set_password_text c j a (some salt) s (spell raw)).0) [
      | inr (why, e) ↦ absurd (ground (arith, made, e))
      | inl e ↦
          let same : spell raw ≡ password = ground (arith, made, e) in
          let stored =
            (verify_password-set_password_text c laws j a salt s (spell raw) salted e).1 in
          (
            ap length (sym same) ∙ (spell-clear raw).1,
            ap all_clear (sym same) ∙ (spell-clear raw).0,
            ap
                  (λ p.
                    verify_password c
                      (generate_password c j a (some raw) (some salt) s).1.contents.password p)
                  (sym same)
                ∙ stored,
          )
    ]
