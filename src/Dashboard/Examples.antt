-- ===== src/Dashboard/Examples.antt =====
-- Runs of the panel's login and its theorems at concrete inputs.
use devin2proxy.Prelude.{
  ℕ, suc, zero, ◌+◌, ◌-◌, ◌*◌, ◌<◌, ◌≡◌, ◌≢◌, refl, ap, ◌∙◌, inl, inr, true, false, ltb, ◌==◌,
  Option, none, some, [], ◌∷◌, ◌++◌, Bytes, bytes_eq, codes, cut_prefix, arith, length, All,
  if◌then◌else◌,
}
use devin2proxy.Dashboard.Store.{
  document, BanRecord, Store, Disk, Json, Files, fresh_data, second, open_store, opened,
  write_beside, set_proxies, has_proxies,
}
use devin2proxy.Dashboard.Bans.{ban_duration}
use devin2proxy.Dashboard.Session.{Crypto, SessionPayload, new_session}
use devin2proxy.Dashboard.Login.{
  wrong, judge_login, finish_login, Net, Panel, Chance, Request, passed_on, handle_logout, guard,
}
use devin2proxy.Dashboard.Saving.{IsWhole, write_beside-IsWhole, read_file, has_proxies-reopened}
use devin2proxy.Dashboard.Ladder.{min, ban_duration-eq}
use devin2proxy.Dashboard.Tokens.{CryptoLaws}
use devin2proxy.Dashboard.Pacing.{IsPaced}
use devin2proxy.Dashboard.Attempts.{Attempt, run_logins, run_logins-IsPaced}
use devin2proxy.Dashboard.Acts.{finishes_login, logs_out, Act, run_acts}
use devin2proxy.Dashboard.Access.{making, ShowsOnly, guard-handle_logout}
use devin2proxy.Dashboard.Passwords.{PasswordLaws}

-- A file system on which all goes well, and one that fails at the rename.
abbrev fine : Files
fine = record {
  mkdir = true;
  create_temp = true;
  chmod = true;
  short = none;
  sync = true;
  close = true;
  rename = true;
  remove = true;
}

abbrev stuck : Files
stuck = record fine { rename = false }

abbrev disk_before : Disk
disk_before = record { target = some (codes "old"); tmp = none }

-- A `Json` for states whose routes are all that they may have.
abbrev routes_json : Json
routes_json = record {
  marshal = λ x. elim x.proxies [ none ↦ some (codes "{}") | some specs ↦ some (codes "{p}") ];
  unmarshal = λ raw.
      if bytes_eq raw (codes "{}" ++ (10 ∷ []))
      then some (document fresh_data)
      else some (record (document fresh_data) { proxies = some [] });
}

write_beside-IsWhole_example :
    All (IsWhole disk_before (codes "new")) (write_beside stuck (codes "new") disk_before).1
write_beside-IsWhole_example = write_beside-IsWhole stuck (codes "new") disk_before

abbrev store : Store
store = record { path = codes "state.json"; contents = fresh_data; disk = disk_before }

has_proxies-reopened_example :
    (has_proxies (set_proxies routes_json fine store []).1 ≡ true)
    × ((t : Store) × (open_store routes_json
            (codes "state.json")
            (set_proxies routes_json fine store []).1.disk
            (read_file (set_proxies routes_json fine store []).1.disk)
          ≡ opened t)
        × (has_proxies t ≡ false))
unfolding set_proxies document
has_proxies-reopened_example =
    has_proxies-reopened routes_json fine store (codes "{}") refl refl refl refl

ban_duration-eq_example :
    ban_duration 14 ≡ (if ltb 14 3 then 0 else min (60 * second * 2048) (24 * 60 * 60 * second))
ban_duration-eq_example = ban_duration-eq 14

fourth_failure : ban_duration 4 ≡ 120 * second
unfolding ban_duration
fourth_failure = refl

-- An encoding that moves every byte past the dot.
abbrev shift : Bytes → Bytes
shift [] = []
shift (b ∷ s) = (b + 47) ∷ shift s

abbrev shift_back : Bytes → Option Bytes
shift_back [] = some []
shift_back (b ∷ s) = elim (shift_back s) [ none ↦ none | some r ↦ some ((b - 47) ∷ r) ]

shift_back-shift : (b : Bytes) → shift_back (shift b) ≡ some b
shift_back-shift [] = refl
shift_back-shift (b ∷ s) =
    let same : b + 47 - 47 ≡ b = omega arith in
    rw (shift_back-shift s) (ap (λ x. some (x ∷ s)) same)

shift_no_dot : (b : Bytes) → All (λ x. (x == b'.') ≡ false) (shift b)
shift_no_dot [] = tt
shift_no_dot (b ∷ s) = (ground arith, shift_no_dot s)

abbrev read_payload : Bytes → Option SessionPayload
read_payload [] = none
read_payload (e ∷ []) = none
read_payload (e ∷ x ∷ n) = some (record { epoch = e; exp = x; nonce = n })

abbrev pad : ℕ → Bytes → Bytes
pad zero s = []
pad (suc n) [] = 0 ∷ pad n []
pad (suc n) (b ∷ s) = b ∷ pad n s

length-pad : (n : ℕ) (s : Bytes) → length (pad n s) ≡ n
length-pad zero s = refl
length-pad (suc n) [] = ap suc (length-pad n [])
length-pad (suc n) (b ∷ s) = ap suc (length-pad n s)

abbrev toy : Crypto
toy = record {
  derive = λ password salt iter n. some (pad n password);
  hmac = λ key message. key ++ message;
  raw_std_encode = shift;
  raw_std_decode = shift_back;
  raw_url_encode = shift;
  raw_url_decode = shift_back;
  marshal_payload = λ p. some (p.epoch ∷ p.exp ∷ p.nonce);
  unmarshal_payload = read_payload;
}

unwrap : (a b : Bytes) → some a ≡ some b → b ≡ a
unwrap a b e = cc

toy_laws : CryptoLaws toy
toy_laws = record {
  decode-encode = shift_back-shift;
  no_dot = shift_no_dot;
  unmarshal-marshal = λ p raw e. ap read_payload (unwrap _ raw e);
}

shift_nonempty : (b : Bytes) → 0 < length b → bytes_eq (shift b) [] ≡ false
shift_nonempty [] h = absurd (omega arith)
shift_nonempty (b ∷ s) h = refl

toy-PasswordLaws : PasswordLaws toy
toy-PasswordLaws = record {
  decode-encode = shift_back-shift;
  encode_nonempty = shift_nonempty;
  key_length = λ password salt key iter n e. ap length (unwrap _ key e) ∙ length-pad n password;
}

abbrev net : Net
net = record {
  split_host_port = λ addr. some addr;
  is_loopback_ip = λ host. true;
  equal_fold = bytes_eq;
}

abbrev in_memory : Store
in_memory = record {
  path = [];
  contents = record fresh_data { session_secret = shift (codes "k") };
  disk = disk_before;
}

abbrev panel : Panel
panel = record { allow_remote = false; crypto = toy; json = routes_json; net = net }

abbrev chance : Chance
chance = record {
  files = fine;
  later_files = fine;
  secret = none;
  later_secret = none;
  nonce = some [];
}

-- The session that is made at 100 seconds, in epoch 0.
abbrev token : Bytes
token = shift (0 ∷ 43300 ∷ []) ++ (b'.' ∷ shift (codes "k" ++ (0 ∷ 43300 ∷ [])))

token_made : (making panel chance in_memory [] (100 * second)).0 ≡ some token
unfolding new_session
token_made = refl

abbrev asking : Request
asking = record {
  origin = [];
  host = codes "h";
  remote_addr = codes "::1";
  cookie = some token;
  authorization = [];
  password = some (codes "wrong");
}

guard_lets_in :
    (guard panel chance
      (record in_memory {
        contents = record in_memory.contents {
          password = some (record { algo = []; iter = 1; salt = []; hash = [] });
        };
      })
      asking
      (200 * second)).0
    ≡ passed_on
unfolding guard
guard_lets_in = refl

shows_token : ShowsOnly token asking
unfolding cut_prefix
shows_token = record { by_cookie = inr refl; by_bearer = inl refl }

-- A store whose password is not the one asked with, and three wrong guesses a second apart.
abbrev locked : Store
locked = record in_memory {
  contents = record in_memory.contents {
    password =
        some (record { algo = []; iter = 1; salt = shift (codes "s"); hash = shift (codes "x") });
  };
}

-- Another request is judged wrong, and settles, on either side of the logout; a second logout follows.
abbrev wrong_guess : Act
wrong_guess = finishes_login chance asking wrong (101 * second)

guard-handle_logout_example :
    let s1 = run_acts panel (making panel chance locked [] (100 * second)).1 (wrong_guess ∷ []) in
    let s2 = (handle_logout panel chance s1).1 in
    (guard panel chance
      (run_acts panel s2 (wrong_guess ∷ logs_out chance ∷ []))
      asking
      (200 * second)).0
    ≢ passed_on
unfolding new_session
guard-handle_logout_example =
    guard-handle_logout panel toy_laws chance locked [] token (100 * second) (wrong_guess ∷ [])
      chance (wrong_guess ∷ logs_out chance ∷ []) chance (200 * second) asking refl refl shows_token

-- Four guesses that are all judged before the first of them is recorded.
abbrev overlapping : ℕ → Act
overlapping t = finishes_login chance asking (judge_login panel locked asking second) (t * second)

-- The fourth is recorded a second behind the third, which had earned a ban of a minute.
overlapping_guesses :
    (run_acts panel locked
        (overlapping 1 ∷ overlapping 2 ∷ overlapping 3 ∷ overlapping 4 ∷ [])).contents.bans
      (codes "::1")
    ≡ some (record { strikes = 4; until = 124 * second; last = 4 * second })
unfolding run_acts judge_login finish_login
overlapping_guesses = refl

abbrev guess : ℕ → Attempt
guess t = record { request = asking; chance = chance; now = t * second; later = t * second }

abbrev struck : BanRecord
struck = record { strikes = 3; until = 63 * second; last = 3 * second }

run_logins-IsPaced_example : IsPaced second (3 * second) struck
unfolding run_logins
run_logins-IsPaced_example =
    run_logins-IsPaced panel second locked (guess 1 ∷ guess 2 ∷ guess 3 ∷ []) (codes "::1") struck
      (omega arith, omega arith, (omega arith, omega arith, (omega arith, omega arith, tt)))
      (λ key. refl) refl
