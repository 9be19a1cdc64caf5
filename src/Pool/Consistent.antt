-- ===== src/Pool/Consistent.antt =====
-- Every operation of the pool keeps its invariant.
use devin2proxy.Prelude.{
  ℕ, suc, ◌+◌, ◌≤◌, ◌<◌, ◌≡◌, inl, inr, Bool, false, ◌||◌, Option, some, none, arith, List, [], ◌∷◌,
  ◌++◌, length, remove_at, leb, ◌==◌, Bytes, bytes_eq, Bool-cases, Option-cases, length-append,
  length-remove_at,
}
use devin2proxy.Rotate
use devin2proxy.Rotate.{RotationCursor}
use devin2proxy.Rotate.Deadlines.{IsPlaced, append_slot-IsPlaced, remove_slot-IsPlaced}
use devin2proxy.Rotate.Pick.{Picked, pick-Picked, wrap_next-cooling}
use devin2proxy.Pool.Accounts.{
  Pool, store, holds_key, clean_token, add, add_account, new_credentials, Source, remove, splice,
  shift_rotation, next, next_of_pick, dashboard_source, index_locked, remove_credential,
}
use devin2proxy.Pool.Identity.{Numbered, Numbered-Distinct, Distinct-remove_at, renumber-Numbered}
use devin2proxy.Pool.Invariant.{
  IsConsistent, InRange, KeysDistinct, Numbered-store, holds_key-store, Numbered-append,
  Below-append, Below-suc, KeysDistinct-append, KeysDistinct-store, Below-remove_at,
  KeysDistinct-remove_at, KeysDistinct-renumber,
}

InRange-le : (m n : ℕ) (o : Option ℕ) → m ≤ n → InRange m o → InRange n o
InRange-le m n none h r = tt
InRange-le m n (some i) h r = omega arith

shift_rotation-InRange :
    (idx n m : ℕ)
    → idx < n
    → m + 1 ≡ n
    → (o : Option ℕ) → InRange n o
    → InRange m (shift_rotation idx o)
unfolding shift_rotation
shift_rotation-InRange idx n m h e none r = tt
shift_rotation-InRange idx n m h e (some i) r = ground arith

module _ (p : Pool) (v : IsConsistent p) where
  one_more :
      {A : Type 0} (xs : List A) (x : A)
      → length xs ≡ length p.entries
      → length (xs ++ (x ∷ [])) ≡ length (p.entries ++ (p.fresh ∷ []))
  one_more xs x e = omega (arith, length-append xs (x ∷ []), length-append p.entries (p.fresh ∷ []))

  pub append_entry-keys :
      (tok : Bytes) (source : Source)
      → holds_key p.heap p.entries tok ≡ false
      → KeysDistinct
          (store p.heap p.fresh (new_credentials p tok source))
          (p.entries ++ (p.fresh ∷ []))
  append_entry-keys tok source new =
      let heap = store p.heap p.fresh (new_credentials p tok source) in
      KeysDistinct-append heap p.fresh p.entries
        (KeysDistinct-store p.heap p.fresh (new_credentials p tok source) p.entries v.allocated
          v.keys)
        (ground (
          arith,
          new,
          holds_key-store p.heap p.fresh (new_credentials p tok source) tok p.entries v.allocated,
        ))

  pub append_entry-Numbered :
      (tok : Bytes) (source : Source)
      → Numbered
          (store p.heap p.fresh (new_credentials p tok source))
          0
          (p.entries ++ (p.fresh ∷ []))
  append_entry-Numbered tok source =
      Numbered-append (store p.heap p.fresh (new_credentials p tok source)) 0 p.fresh p.entries
        (Numbered-store p.heap p.fresh (new_credentials p tok source) 0 p.entries v.allocated
          v.numbered)
        (ground arith)

  add_account-IsConsistent :
      (tok : Bytes) → holds_key p.heap p.entries tok ≡ false → IsConsistent (add_account p tok)
  unfolding add_account Rotate.append_slot
  add_account-IsConsistent tok new = record {
    slots = one_more p.rot.cooling 0 v.slots;
    busy_slots = one_more p.busy false v.busy_slots;
    quota_slots = one_more p.quota_cool_until 0 v.quota_slots;
    placed = append_slot-IsPlaced p.rot v.placed;
    numbered = append_entry-Numbered tok (dashboard_source (length p.entries));
    allocated =
        Below-append (suc p.fresh) p.fresh p.entries (Below-suc p.fresh p.entries v.allocated)
          (omega arith);
    keys = append_entry-keys tok (dashboard_source (length p.entries)) new;
    last =
        InRange-le (length p.entries) (length (p.entries ++ (p.fresh ∷ []))) p.last_rotation
          (omega (arith, length-append p.entries (p.fresh ∷ []))) v.last;
  }

  pub add-IsConsistent : (raw : Bytes) → IsConsistent (add p raw).1
  unfolding add
  add-IsConsistent raw =
      elim (Bool-cases
        (bytes_eq (clean_token raw) [] || holds_key p.heap p.entries (clean_token raw))) [
          | inl old ↦ rw old v
          | inr new ↦ rw new (add_account-IsConsistent (clean_token raw) (ground arith))
        ]

  pub remove_slot-length :
      (idx : ℕ)
      → idx < length p.entries
      → length (Rotate.remove_slot p.rot idx).cooling ≡ length (remove_at p.entries idx)
  unfolding Rotate.remove_slot
  remove_slot-length idx h =
      ground (arith, v.slots, length-remove_at p.rot.cooling idx, length-remove_at p.entries idx)

  pub splice-IsConsistent : (idx : ℕ) → idx < length p.entries → IsConsistent (splice p idx)
  unfolding splice
  splice-IsConsistent idx h = record {
    slots = remove_slot-length idx h;
    busy_slots =
        omega (arith, v.busy_slots, length-remove_at p.busy idx, length-remove_at p.entries idx);
    quota_slots = omega (
      arith,
      v.quota_slots,
      length-remove_at p.quota_cool_until idx,
      length-remove_at p.entries idx,
    );
    placed = remove_slot-IsPlaced p.rot idx v.placed;
    numbered =
        renumber-Numbered p.heap 0 (remove_at p.entries idx)
          (Distinct-remove_at idx p.entries (Numbered-Distinct p.heap 0 p.entries v.numbered));
    allocated = Below-remove_at p.fresh idx p.entries v.allocated;
    keys =
        KeysDistinct-renumber p.heap (remove_at p.entries idx) (remove_at p.entries idx)
          (KeysDistinct-remove_at p.heap idx p.entries v.keys);
    last =
        shift_rotation-InRange idx (length p.entries) (length (remove_at p.entries idx)) h
          (length-remove_at p.entries idx h) p.last_rotation v.last;
  }

  pub remove-IsConsistent : (idx : ℕ) → IsConsistent (remove p idx).1
  unfolding remove
  remove-IsConsistent idx = elim (Bool-cases (leb (length p.entries) idx)) [
    | inl out ↦ rw out v
    | inr within ↦ rw within (splice-IsConsistent idx (ground arith))
  ]

  pub remove_credential-IsConsistent :
      (creds : Option ℕ) → IsConsistent (remove_credential p creds).1
  unfolding remove_credential
  remove_credential-IsConsistent creds = elim (Option-cases (index_locked p creds)) [
    | inl gone ↦ rw (gone, remove_credential) v
    | inr (idx, held) ↦ rw (held, remove_credential) (remove-IsConsistent idx)
  ]

  -- Only the cursor, the marks and the holds change, and no slot comes or goes.
  pub same_slots :
      (rot : RotationCursor) (busy : List Bool) (holds : List ℕ)
      → length rot.cooling ≡ length p.rot.cooling
      → IsPlaced rot
      → length busy ≡ length p.busy
      → length holds ≡ length p.quota_cool_until
      → IsConsistent (record p { rot = rot; busy = busy; quota_cool_until = holds })
  same_slots rot busy holds a b c d = ground arith

  next_of_Picked :
      (now : ℕ) (r : Option ℕ × RotationCursor)
      → Picked (Rotate.wrap_next p.rot) now r
      → IsConsistent (next_of_pick p r).1
  unfolding next_of_pick
  next_of_Picked now r k = rw k.result (ground (arith, wrap_next-cooling p.rot, k.in_range))

  pub next-IsConsistent : (now : ℕ) → IsConsistent (next p now).1
  unfolding next
  next-IsConsistent now = elim (Bool-cases (length p.entries == 0)) [
    | inl none_left ↦ rw none_left v
    | inr some_left ↦ rw some_left (
        next_of_Picked now (Rotate.pick p.rot now)
          (pick-Picked p.rot now (ground (arith, v.slots))))
  ]
