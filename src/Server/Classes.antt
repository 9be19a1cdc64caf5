-- ===== src/Server/Classes.antt =====
-- internal/server/server.go beside internal/devin/pool.go: the two classifications of a failure agree,
-- and what the notes of unknown models cost.
use devin2proxy.Prelude.{
  ◌≤◌, ◌<◌, ◌≡◌, refl, Bool, true, false, Option, none, some, inl, inr, List, [], ◌∷◌, ltb, length,
  take, Bytes, bytes_eq_refl, contains_bytes, All, arith, Bool-cases, trim_space, length-append,
  length-take_le,
}
use devin2proxy.Errors.{GoError, HttpError, ConnectError, is_context_failure}
use devin2proxy.Pool.Cooldowns.{report_status, error_status, cooldown, status_from_connect_code}
use devin2proxy.Server.Refusals.{
  is_account_refusal, refused_by, fallback_key, note_model_fallback, ellipsis,
}

abbrev pub is_some {ℓ} : {A : Type ℓ} → Option A → Bool
is_some none = false
is_some (some a) = true

cools-refused :
    (h : Option HttpError) (c : Option ConnectError)
    → is_some (cooldown (error_status h c)) ≡ refused_by h c
unfolding cooldown error_status refused_by status_from_connect_code
cools-refused (some h) c = ground arith
cools-refused none (some c) = ground arith
cools-refused none none = refl

-- For an error that is not the caller giving up, the pool has a cooldown exactly if the server
-- moves on to another account.
pub cooldown-is_account_refusal :
    (err : GoError)
    → is_context_failure err ≡ false
    → is_some (cooldown (report_status 0 (some err))) ≡ is_account_refusal err
unfolding report_status is_account_refusal
cooldown-is_account_refusal err waiting = rw waiting (cools-refused err.http err.connect)

-- A history of notes: how often each call logged, and the names that are kept.
unfoldable pub notes : List Bytes → List Bytes → List Bytes
unfolding note_model_fallback
notes seen [] = seen
notes seen (r ∷ requests) = notes (note_model_fallback seen r).1 requests

record IsSmall (seen : List Bytes) : Type 0 where
  few : length seen ≤ 512
  short : All (λ name. length name ≤ 131) seen

length-fallback_key : (r : Bytes) → length (fallback_key r) ≤ 131
unfolding fallback_key
length-fallback_key r = elim (Bool-cases (ltb 128 (length (trim_space r)))) [
  | inl long ↦ rw long (
      omega (
        arith,
        length-append (take 128 (trim_space r)) ellipsis,
        length-take_le 128 (trim_space r) (ground (arith, long)),
      ))
  | inr fits ↦ rw fits (ground (arith, fits))
]

note-IsSmall :
    (seen : List Bytes) (r : Bytes) → IsSmall seen → IsSmall (note_model_fallback seen r).1
unfolding note_model_fallback
note-IsSmall seen r v = elim (Bool-cases (contains_bytes seen (fallback_key r))) [
  | inl old ↦ rw old v
  | inr new ↦ elim (Bool-cases (ltb (length seen) 512)) [
    | inl room ↦
        rw (new, room)
          (record { few = ground (arith, room); short = (length-fallback_key r, v.short) })
    | inr full ↦ rw (new, full) v
  ]
]

notes-IsSmall : (requests seen : List Bytes) → IsSmall seen → IsSmall (notes seen requests)
unfolding notes
notes-IsSmall [] seen v = v
notes-IsSmall (r ∷ requests) seen v =
    notes-IsSmall requests (note_model_fallback seen r).1 (note-IsSmall seen r v)

-- Whatever names clients ask for, the server keeps at most 512 of them, of at most 131 bytes each.
pub notes_bounds :
    (requests : List Bytes)
    → (length (notes [] requests) ≤ 512) × All (λ name. length name ≤ 131) (notes [] requests)
notes_bounds requests =
    let v = notes-IsSmall requests [] (record { few = omega arith; short = tt }) in (v.few, v.short)

contains-notes :
    (requests seen : List Bytes) (name : Bytes)
    → contains_bytes seen name ≡ true
    → contains_bytes (notes seen requests) name ≡ true
unfolding notes note_model_fallback contains_bytes
contains-notes [] seen name h = h
contains-notes (r ∷ requests) seen name h =
    contains-notes requests (note_model_fallback seen r).1 name (ground (arith, h))

known :
    (seen : List Bytes) (r : Bytes)
    → contains_bytes seen (fallback_key r) ≡ true
    → (note_model_fallback seen r).0 ≡ false
unfolding note_model_fallback
known seen r h = rw h refl

noted :
    (seen : List Bytes) (r : Bytes)
    → length seen < 512
    → contains_bytes (note_model_fallback seen r).1 (fallback_key r) ≡ true
unfolding note_model_fallback contains_bytes
noted seen r room = ground (arith, bytes_eq_refl (fallback_key r))

-- While there is room for it a name is logged once: after its first note no later one logs it.
pub note_model_fallback_once :
    (seen : List Bytes) (r : Bytes) (requests : List Bytes)
    → length seen < 512
    → (note_model_fallback (notes (note_model_fallback seen r).1 requests) r).0 ≡ false
note_model_fallback_once seen r requests room =
    known (notes (note_model_fallback seen r).1 requests) r
      (contains-notes requests (note_model_fallback seen r).1 (fallback_key r) (noted seen r room))
