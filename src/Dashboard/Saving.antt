-- ===== src/Dashboard/Saving.antt =====
-- internal/dashboard/store.go: a save replaces the file whole or not at all, and what it wrote is
-- what the next start reads.
use devin2proxy.Prelude.{
  ℕ, ◌==◌, if◌then◌else◌, ◌≡◌, refl, ◌∙◌, ap, sym, ◌⊎◌, inl, inr, true, false, Option, none, some,
  [], ◌∷◌, ◌++◌, Bytes, bytes_eq, Bool-cases, Option-cases, All, take, arith, List,
}
use devin2proxy.Dashboard.Store.{
  document, fill_in, key_or, omit_empty, Store, StoreData, Disk, Json, Files, SaveError,
  chmod_failed, write_failed, sync_failed, close_failed, rename_failed, ReadAnswer, contents_are,
  not_there, opened, abandon, put_in_place, fill_temp, write_beside, newest, save, fresh_data,
  store_version, open_store, read_store, check_version, set_proxies, has_proxies,
}

-- The file is the old one or the new one.
abbrev pub IsWhole : Disk → Bytes → Disk → Type 0
IsWhole d b x = (x.target ≡ d.target) ⊎ (x.target ≡ some b)

-- How a save ends: with the new file, or with the disk as it was.
abbrev pub Ends : Disk → Bytes → Option SaveError → Disk → Type 0
Ends d b none x = x ≡ record { target = some b; tmp = none }
Ends d b (some e) x = x ≡ d

module _ (a : Files) (b : Bytes) (d : Disk) where
  abandon-IsWhole :
      (e : SaveError) (x : Disk) (trace : List Disk)
      → IsWhole d b x
      → All (IsWhole d b) trace
      → All (IsWhole d b) (abandon a e x trace).1
  unfolding abandon
  abandon-IsWhole e x trace now before = elim (Bool-cases a.remove) [
    | inl removed ↦ rw removed (now, (now, before))
    | inr left ↦ rw left (now, before)
  ]

  put_in_place-IsWhole :
      (trace : List Disk)
      → All (IsWhole d b) trace
      → All (IsWhole d b) (put_in_place a (record d { tmp = some b }) trace).1
  unfolding put_in_place
  put_in_place-IsWhole trace before =
      let full : Disk = record d { tmp = some b } in
      let stopped = λ (e : SaveError). abandon-IsWhole e full trace (inl refl) before in
      elim (Bool-cases a.sync) [
        | inr bad ↦ rw bad (stopped sync_failed)
        | inl synced ↦ elim (Bool-cases a.close) [
          | inr bad ↦ rw (synced, bad) (stopped close_failed)
          | inl closed ↦ elim (Bool-cases a.rename) [
            | inr bad ↦ rw (synced, closed, bad) (stopped rename_failed)
            | inl renamed ↦ rw (synced, closed, renamed) (inr refl, (inl refl, before))
          ]
        ]
      ]

  fill_temp-IsWhole : All (IsWhole d b) (fill_temp a b (record d { tmp = some [] }) (d ∷ [])).1
  unfolding fill_temp
  fill_temp-IsWhole =
      let empty : Disk = record d { tmp = some [] } in
      elim (Bool-cases a.chmod) [
        | inr bad ↦ rw bad (abandon-IsWhole chmod_failed empty (d ∷ []) (inl refl) (inl refl, tt))
        | inl set ↦ elim (Option-cases a.short) [
          | inl full ↦
              rw (set, full) (put_in_place-IsWhole (empty ∷ d ∷ []) (inl refl, (inl refl, tt)))
          | inr (n, cut) ↦
              rw (set, cut)
                (abandon-IsWhole write_failed (record d { tmp = some (take n b) }) (empty ∷ d ∷ [])
                  (inl refl) (inl refl, (inl refl, tt)))
        ]
      ]

  -- At whatever call a save stops, the file at the path is the old one or the whole new one.
  pub write_beside-IsWhole : All (IsWhole d b) (write_beside a b d).1
  unfolding write_beside
  write_beside-IsWhole = elim (Bool-cases a.mkdir) [
    | inr bad ↦ rw bad (inl refl, tt)
    | inl made ↦ elim (Bool-cases a.create_temp) [
      | inr bad ↦ rw (made, bad) (inl refl, tt)
      | inl created ↦ rw (made, created) fill_temp-IsWhole
    ]
  ]

  -- A save that reports no error leaves the new file, and one that reports an error the disk as it was,
  -- where the removal of a temporary file succeeds and no such file was there.
  pub write_beside-Ends :
      a.remove ≡ true
      → d.tmp ≡ none
      → Ends d b (write_beside a b d).0 (newest d (write_beside a b d).1)
  unfolding write_beside fill_temp put_in_place abandon
  write_beside-Ends removed clean = ground arith

-- What a save leaves of the state: the version, and no empty list of routes.
abbrev pub saved : StoreData → StoreData
saved d = record d {
  version = store_version;
  proxies = elim d.proxies [ none ↦ none | some specs ↦ omit_empty specs ];
}

abbrev stamp : StoreData → StoreData
stamp d = record d { version = store_version }

key_or-omit_empty : {A : Type 0} → (xs : List A) → key_or [] (omit_empty xs) ≡ xs
key_or-omit_empty [] = refl
key_or-omit_empty (x ∷ xs) = refl

fill_in-document : (d : StoreData) → fill_in fresh_data (document (stamp d)) ≡ saved d
unfolding fill_in document
fill_in-document d = λ i. record {
  version = store_version;
  password = or_none d.password i;
  session_secret = key_or-omit_empty d.session_secret i;
  session_epoch = epoch d.session_epoch i;
  accounts = key_or-omit_empty d.accounts i;
  proxies = or_none (elim d.proxies [ none ↦ none | some specs ↦ omit_empty specs ]) i;
  bans = d.bans;
}
  where
    or_none : {A : Type 0} → (o : Option A) → (elim o [ none ↦ none | some a ↦ some a ]) ≡ o
    or_none none = refl
    or_none (some a) = refl

    epoch : (n : ℕ) → key_or 0 (if n == 0 then none else some n) ≡ n
    epoch n = ground arith

-- `os.ReadFile` of the path.
abbrev pub read_file : Disk → ReadAnswer
read_file d = elim d.target [ none ↦ not_there | some raw ↦ contents_are raw ]

write_beside_done :
    (a : Files) (b : Bytes) (d : Disk)
    → (write_beside a b d).0 ≡ none
    → newest d (write_beside a b d).1 ≡ record { target = some b; tmp = none }
unfolding write_beside fill_temp put_in_place abandon
write_beside_done a b d fine = ground arith

-- `save` of a store with a path, whose state marshals to `raw`.
abbrev written_to : Files → Bytes → Store → Option SaveError × Store
written_to a b s = (
  (write_beside a b s.disk).0,
  record s { contents = stamp s.contents; disk = newest s.disk (write_beside a b s.disk).1 },
)

module _ (j : Json) (a : Files) (s : Store) (raw : Bytes) where
  save-eq :
      bytes_eq s.path [] ≡ false
      → j.marshal (document (stamp s.contents)) ≡ some raw
      → save j a s ≡ written_to a (raw ++ (10 ∷ [])) s
  unfolding save
  save-eq named written = ground arith

  read_saved :
      (disk : Disk)
      → disk ≡ record { target = some (raw ++ (10 ∷ [])); tmp = none }
      → bytes_eq s.path [] ≡ false
      → j.unmarshal (raw ++ (10 ∷ [])) ≡ some (document (stamp s.contents))
      → open_store j s.path disk (read_file disk)
        ≡ opened (record { path = s.path; contents = saved s.contents; disk = disk })
  unfolding open_store
  read_saved disk e named parsed = rw e (
      rw named (
        rw (parsed, read_store)
          (ap
            (λ d.
              check_version
                (record {
                  path = s.path;
                  contents = fresh_data;
                  disk = record { target = some (raw ++ (10 ∷ [])); tmp = none };
                })
                d)
            (fill_in-document s.contents))))

  -- A save that reports no error is read back by the next start, the version stamped and an empty
  -- list of routes read as none, where `encoding/json` reads back what it wrote of this state.
  pub open_store-save :
      bytes_eq s.path [] ≡ false
      → j.marshal (document (record s.contents { version = store_version })) ≡ some raw
      → j.unmarshal (raw ++ (10 ∷ [])) ≡ some (document (stamp s.contents))
      → (save j a s).0 ≡ none
      → open_store j s.path (save j a s).1.disk (read_file (save j a s).1.disk)
        ≡ opened (record { path = s.path; contents = saved s.contents; disk = (save j a s).1.disk })
  open_store-save named written parsed fine =
      let e = save-eq named written in
      read_saved (save j a s).1.disk
        (ap (λ r. r.1.disk) e
          ∙ write_beside_done a (raw ++ (10 ∷ [])) s.disk (sym (ap (λ r. r.0) e) ∙ fine))
        named parsed

-- After `SetProxies` with an empty list has saved without an error, where `encoding/json` reads back
-- the object that it wrote: the store has a list of routes, and the store that the next start opens
-- from that file has none.
pub has_proxies-reopened :
    (j : Json) (a : Files) (s : Store) (raw : Bytes)
    → bytes_eq s.path [] ≡ false
    → let written = document (record s.contents { version = store_version; proxies = some [] }) in
      j.marshal written ≡ some raw
      → j.unmarshal (raw ++ (10 ∷ [])) ≡ some written
      → (set_proxies j a s []).0 ≡ none
      → let s' = (set_proxies j a s []).1 in
        (has_proxies s' ≡ true)
        × ((t : Store) × (open_store j s.path s'.disk (read_file s'.disk) ≡ opened t)
            × (has_proxies t ≡ false))
unfolding set_proxies has_proxies
has_proxies-reopened j a s raw named written parsed fine =
    let s0 : Store = record s { contents = record s.contents { proxies = some [] } } in
    (
      rw (save-eq j a s0 raw named written) refl,
      (
        record { path = s.path; contents = saved s0.contents; disk = (save j a s0).1.disk },
        open_store-save j a s0 raw named written parsed fine,
        refl,
      ),
    )
