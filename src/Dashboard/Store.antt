-- ===== src/Dashboard/Store.antt =====
-- internal/dashboard/store.go: the dashboard's persistent state, and how it is written and read back.
-- The lock is held for each method, so a method is one step. `encoding/json` is `Json`, and the file
-- system's answers are `Files`. A map is a function from its keys; `nil` is `none`.
use devin2proxy.Prelude.{
  ℕ, ◌+◌, ◌-◌, Bool, true, false, not, Option, none, some, List, [], ◌∷◌, ◌++◌, ltb, ◌==◌,
  if◌then◌else◌, take, Bytes, bytes_eq, ◌*◌,
}

pub record PasswordRecord : Type 0 where
  pub algo : Bytes
  pub iter : ℕ
  pub salt : Bytes
  pub hash : Bytes

-- Times in nanoseconds; the zero time is 0.
pub record BanRecord : Type 0 where
  pub strikes : ℕ
  pub until : ℕ
  pub last : ℕ

pub record StoreData : Type 0 where
  pub version : ℕ
  pub password : Option PasswordRecord
  pub session_secret : Bytes
  pub session_epoch : ℕ
  pub accounts : List Bytes
  pub proxies : Option (List Bytes)
  pub bans : Bytes → Option BanRecord

-- The file at the store's path and the temporary one beside it.
pub record Disk : Type 0 where
  pub target : Option Bytes
  pub tmp : Option Bytes

pub record Store : Type 0 where
  pub path : Bytes
  pub contents : StoreData
  pub disk : Disk

-- The object in the file, `none` for a key that `omitempty` leaves out. An empty map of bans is left
-- out too, and read back as the empty one.
pub record Document : Type 0 where
  pub version : Option ℕ
  pub password : Option PasswordRecord
  pub session_secret : Option Bytes
  pub session_epoch : Option ℕ
  pub accounts : Option (List Bytes)
  pub proxies : Option (List Bytes)
  pub bans : Bytes → Option BanRecord

abbrev pub omit_empty {ℓ} : {A : Type ℓ} → List A → Option (List A)
omit_empty [] = none
omit_empty (x ∷ xs) = some (x ∷ xs)

-- What the tags of `storeData` make of it; a nil slice is empty.
unfoldable pub document : StoreData → Document
document d = record {
  version = some d.version;
  password = d.password;
  session_secret = omit_empty d.session_secret;
  session_epoch = if d.session_epoch == 0 then none else some d.session_epoch;
  accounts = omit_empty d.accounts;
  proxies = elim d.proxies [ none ↦ none | some specs ↦ omit_empty specs ];
  bans = d.bans;
}

abbrev pub key_or {ℓ} : {A : Type ℓ} → A → Option A → A
key_or old none = old
key_or old (some a) = a

-- `json.Unmarshal` into a value that is there: a key that is absent leaves its field.
unfoldable pub fill_in : StoreData → Document → StoreData
fill_in old x = record {
  version = key_or old.version x.version;
  password = elim x.password [ none ↦ old.password | some rec ↦ some rec ];
  session_secret = key_or old.session_secret x.session_secret;
  session_epoch = key_or old.session_epoch x.session_epoch;
  accounts = key_or old.accounts x.accounts;
  proxies = elim x.proxies [ none ↦ old.proxies | some specs ↦ some specs ];
  bans = x.bans;
}

-- The text of an object, and the object in a text.
pub record Json : Type 0 where
  pub marshal : Document → Option Bytes
  pub unmarshal : Bytes → Option Document

-- What each call of a save answers; `short` is where a failing write stopped.
pub record Files : Type 0 where
  pub mkdir : Bool
  pub create_temp : Bool
  pub chmod : Bool
  pub short : Option ℕ
  pub sync : Bool
  pub close : Bool
  pub rename : Bool
  pub remove : Bool

pub data SaveError : Type 0 where
  marshal_failed mkdir_failed create_failed chmod_failed write_failed : SaveError
  sync_failed close_failed rename_failed : SaveError

-- The error of a save and the states of the disk on the way, the last one first.
abbrev pub Saving : Type 0
Saving = Option SaveError × List Disk

abbrev pub store_version : ℕ
store_version = 1

-- `os.Remove(tmp)`, whose own error is dropped.
unfoldable pub abandon : Files → SaveError → Disk → List Disk → Saving
abandon a e d trace =
    if a.remove then (some e, record d { tmp = none } ∷ d ∷ trace) else (some e, d ∷ trace)

unfoldable pub put_in_place : Files → Disk → List Disk → Saving
unfolding abandon
put_in_place a d trace =
    if not a.sync
    then abandon a sync_failed d trace
    else if not a.close
    then abandon a close_failed d trace
    else if not a.rename
    then abandon a rename_failed d trace
    else (none, record { target = d.tmp; tmp = none } ∷ d ∷ trace)

unfoldable pub fill_temp : Files → Bytes → Disk → List Disk → Saving
unfolding abandon put_in_place
fill_temp a b d trace = if not a.chmod then abandon a chmod_failed d trace else elim a.short [
  | some n ↦ abandon a write_failed (record d { tmp = some (take n b) }) (d ∷ trace)
  | none ↦ put_in_place a (record d { tmp = some b }) (d ∷ trace)
]

-- The calls of a save from `MkdirAll` on, for the bytes `b`.
unfoldable pub write_beside : Files → Bytes → Disk → Saving
unfolding fill_temp
write_beside a b d =
    if not a.mkdir
    then (some mkdir_failed, d ∷ [])
    else if not a.create_temp
    then (some create_failed, d ∷ [])
    else fill_temp a b (record d { tmp = some [] }) (d ∷ [])

abbrev pub newest : Disk → List Disk → Disk
newest d [] = d
newest d (d' ∷ trace) = d'

-- `save`: the error, and the store with the disk as the save leaves it.
unfoldable pub save : Json → Files → Store → Option SaveError × Store
unfolding write_beside document
save j a s =
    if bytes_eq s.path []
    then (none, s)
    else let stamped = record s.contents { version = store_version } in
      elim (j.marshal (document stamped)) [
        | none ↦ (some marshal_failed, record s { contents = stamped })
        | some b ↦
            let (e, trace) = write_beside a (b ++ (b'\n' ∷ [])) s.disk in
            (e, record s { contents = stamped; disk = newest s.disk trace })
      ]

-- `s.data` before the file is read.
abbrev pub fresh_data : StoreData
fresh_data = record {
  version = store_version;
  password = none;
  session_secret = [];
  session_epoch = 0;
  accounts = [];
  proxies = none;
  bans = λ addr. none;
}

pub data OpenError : Type 0 where
  unparsed unreadable : OpenError
  newer_version : ℕ → OpenError

-- What `os.ReadFile` answers.
pub data ReadAnswer : Type 0 where
  contents_are : Bytes → ReadAnswer
  not_there : ReadAnswer
  other_error : ReadAnswer

pub data Opened : Type 0 where
  opened : Store → Opened
  refused : OpenError → Opened

unfoldable pub check_version : Store → StoreData → Opened
check_version s d =
    if ltb store_version d.version
    then refused (newer_version d.version)
    else opened (record s { contents = d })

unfoldable pub read_store : Json → Store → ReadAnswer → Opened
unfolding check_version fill_in
read_store j s not_there = opened s
read_store j s other_error = refused unreadable
read_store j s (contents_are raw) = elim (j.unmarshal raw) [
  | none ↦ refused unparsed
  | some x ↦ check_version s (fill_in s.contents x)
]

unfoldable pub open_store : Json → Bytes → Disk → ReadAnswer → Opened
unfolding read_store
open_store j path disk answer =
    let s : Store = record { path = path; contents = fresh_data; disk = disk } in
    if bytes_eq path [] then opened s else read_store j s answer

unfoldable pub set_password : Json → Files → Store → PasswordRecord → Option SaveError × Store
unfolding save
set_password j a s rec =
    save j a (record s { contents = record s.contents { password = some rec } })

unfoldable pub bump_session_epoch : Json → Files → Store → (ℕ × Option SaveError) × Store
unfolding save
bump_session_epoch j a s =
    let epoch = s.contents.session_epoch + 1 in
    let (e, s') = save j a (record s { contents = record s.contents { session_epoch = epoch } }) in
    ((epoch, e), s')

unfoldable pub set_accounts : Json → Files → Store → List Bytes → Option SaveError × Store
unfolding save
set_accounts j a s tokens =
    save j a (record s { contents = record s.contents { accounts = tokens } })

unfoldable pub set_proxies : Json → Files → Store → List Bytes → Option SaveError × Store
unfolding save
set_proxies j a s specs =
    save j a (record s { contents = record s.contents { proxies = some specs } })

abbrev pub listed : Option (List Bytes) → List Bytes
listed none = []
listed (some specs) = specs

unfoldable pub proxies : Store → List Bytes
proxies s = listed s.contents.proxies

unfoldable pub has_proxies : Store → Bool
has_proxies s = elim s.contents.proxies [ none ↦ false | some specs ↦ true ]

-- A write to the map of bans.
abbrev pub put_ban :
    Bytes → Option BanRecord → (Bytes → Option BanRecord) → Bytes → Option BanRecord
put_ban addr rec bans key = if bytes_eq key addr then rec else bans key

abbrev pub set_bans : Store → (Bytes → Option BanRecord) → Store
set_bans s bans = record s { contents = record s.contents { bans = bans } }

abbrev pub second : ℕ
second = 1000000000

abbrev pub stale_after : ℕ
stale_after = 24 * 60 * 60 * second

-- The record of `banFor`; the caller writes through the pointer, which stands for `put_ban`.
unfoldable pub ban_for : Store → Bytes → BanRecord
ban_for s addr = elim (s.contents.bans addr) [
  | none ↦ record { strikes = 0; until = 0; last = 0 }
  | some rec ↦ rec
]

-- What the loop of `forgetStaleBans` keeps of one record.
unfoldable pub keep_fresh : ℕ → Option BanRecord → Option BanRecord
keep_fresh now none = none
keep_fresh now (some rec) =
    if ltb now rec.until
    then some rec
    else if ltb stale_after (now - rec.last)
    then none
    else some rec

unfoldable pub forget_stale_bans : Store → ℕ → Store
unfolding keep_fresh
forget_stale_bans s now = set_bans s (λ addr. keep_fresh now (s.contents.bans addr))
