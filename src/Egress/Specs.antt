-- ===== src/Egress/Specs.antt =====
-- internal/devin/egress.go: a route as it is configured, and as it may be shown.
use devin2proxy.Prelude.{
  ℕ, ◌+◌, Bool, ◌||◌, none, some, List, [], ◌∷◌, ◌++◌, ◌==◌, if◌then◌else◌, Bytes, bytes_eq, codes,
  index, take, drop, after_last, break_at, split_at,
}
use devin2proxy.Pool.Accounts.{clean_token}

abbrev pub credential_mask : Bytes
credential_mask = codes "***:***"

abbrev pub ends_authority : ℕ → Bool
ends_authority b = b == b'/' || b == b'?' || b == b'#'

-- The scheme with its "://", if there is one, and the rest.
unfoldable pub split_scheme : Bytes → Bytes × Bytes
unfolding index
split_scheme spec = elim (index spec (codes "://")) [
  | none ↦ ([], spec)
  | some i ↦ (take (i + 3) spec, drop (i + 3) spec)
]

unfoldable pub mask_authority : Bytes → Bytes → Bytes → Bytes → Bytes
unfolding after_last
mask_authority spec scheme authority tail = elim (after_last b'@' authority) [
  | none ↦ spec
  | some host ↦ scheme ++ (credential_mask ++ (b'@' ∷ (host ++ tail)))
]

unfoldable pub strip_egress_credentials : Bytes → Bytes
unfolding split_scheme break_at mask_authority
strip_egress_credentials spec =
    let (scheme, rest) = split_scheme spec in
    let (authority, tail) = break_at ends_authority rest in
    mask_authority spec scheme authority tail

unfoldable pub has_masked_credentials : Bytes → Bool
unfolding index
has_masked_credentials spec = elim (index spec (credential_mask ++ (b'@' ∷ []))) [
  | none ↦ Bool.false
  | some i ↦ Bool.true
]

-- `RoutesFromFile`, for the contents of the file.
unfoldable pub clean_lines : List Bytes → List Bytes
unfolding clean_token
clean_lines [] = []
clean_lines (line ∷ lines) =
    let spec = clean_token line in
    let rest = clean_lines lines in if bytes_eq spec [] then rest else spec ∷ rest

unfoldable pub routes_from_file : Bytes → List Bytes
unfolding clean_lines split_at
routes_from_file b = clean_lines (split_at 10 b)
