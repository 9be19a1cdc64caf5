-- ===== src/Wire/Trajectory.antt =====
-- internal/devin/wire.go: the reference to a trajectory, and the record of fields that are not known.
-- An unknown field's value is kept as what its text is made from.
use devin2proxy.Prelude.{
  ℕ, ◌^◌, ◌<◌, ◌≡◌, refl, sym, ap, subst, Bool, true, false, not, ◌&&◌, ◌||◌, List, [], ◌∷◌, ◌++◌,
  Bytes, arith, leb, ◌==◌, if◌then◌else◌, length, take,
}
use devin2proxy.Pb.Writer.{
  wire_varint, wire_bytes, wire_fixed64, wire_fixed32, write_uint64, write_varint, write_string,
}
use devin2proxy.Pb.Reader.{Reader, read_varint, read_bytes, read_double, skip}
use devin2proxy.Wire.Loop.{decode, Leads, Leads-empty, decode-Leads}
use devin2proxy.Wire.Writes.{Leads-write_uint64, Leads-write_varint, Leads-write_string}
use devin2proxy.Wire.Tools.{store, Fits}
use devin2proxy.Wire.Numbers.{tr_trajectory_id, tr_trajectory_type, tr_field4}

pub data UnknownValue : Type 0 where
  varint_value : ℕ → UnknownValue
  fixed64_value : ℕ → UnknownValue
  fixed32_value : UnknownValue
  bytes_value : Bytes → UnknownValue
  long_bytes : ℕ → Bytes → UnknownValue
  unsupported_value : UnknownValue

pub record UnknownField : Type 0 where
  pub number : ℕ
  pub wire : ℕ
  pub value : UnknownValue

abbrev pub unknown_bytes : Bytes → UnknownValue
unknown_bytes raw =
    if leb (length raw) 64
    then UnknownValue.bytes_value raw
    else UnknownValue.long_bytes (length raw) (take 64 raw)

unfoldable pub record_unknown : ℕ → ℕ → Reader → UnknownField × Reader
record_unknown f w r =
    let field : UnknownValue → UnknownField = λ v. record { number = f; wire = w; value = v } in
    if w == wire_varint
    then store (read_varint r) (λ n. field (UnknownValue.varint_value n))
    else if w == wire_fixed64
    then store (read_double r) (λ n. field (UnknownValue.fixed64_value n))
    else if w == wire_fixed32
    then (field UnknownValue.fixed32_value, skip r w)
    else if w == wire_bytes
    then store (read_bytes r) (λ raw. field (unknown_bytes raw))
    else (field UnknownValue.unsupported_value, skip r w)

pub record TrajectoryReference : Type 0 where
  pub trajectory_id : Bytes
  pub trajectory_type : ℕ
  pub field4 : ℕ
  pub field4_set : Bool
  pub unknown : List UnknownField

abbrev pub no_trajectory : TrajectoryReference
no_trajectory = record {
  trajectory_id = [];
  trajectory_type = 0;
  field4 = 0;
  field4_set = false;
  unknown = [];
}

-- `NewTrajectoryReference` and its continuation, with the UUID they draw.
unfoldable pub new_trajectory_reference : Bytes → TrajectoryReference
new_trajectory_reference uuid = record {
  trajectory_id = uuid;
  trajectory_type = 4;
  field4 = 14;
  field4_set = true;
  unknown = [];
}

unfoldable pub new_trajectory_reference_continuation : Bytes → TrajectoryReference
new_trajectory_reference_continuation uuid = record {
  trajectory_id = uuid;
  trajectory_type = 4;
  field4 = 0;
  field4_set = false;
  unknown = [];
}

unfoldable pub trajectory_field :
    ℕ → ℕ → Reader → TrajectoryReference → TrajectoryReference × Reader
trajectory_field f w r out =
    if f == tr_trajectory_id && w == wire_bytes
    then store (read_bytes r) (λ x. record out { trajectory_id = x })
    else if f == tr_trajectory_type && w == wire_varint
    then store (read_varint r) (λ x. record out { trajectory_type = x })
    else if f == tr_field4 && w == wire_varint
    then store (read_varint r) (λ x. record out { field4 = x; field4_set = true })
    else store (record_unknown f w r) (λ x. record out { unknown = out.unknown ++ (x ∷ []) })

unfoldable pub decode_trajectory_reference : Bytes → TrajectoryReference
decode_trajectory_reference b = (decode trajectory_field no_trajectory b).0

unfoldable pub encode_trajectory_reference : TrajectoryReference → Bytes
encode_trajectory_reference ref =
    let sub = write_string [] tr_trajectory_id ref.trajectory_id in
    let sub = write_uint64 sub tr_trajectory_type ref.trajectory_type in
    if ref.field4_set || not (ref.field4 == 0) then write_varint sub tr_field4 ref.field4 else sub

-- A reference that the code builds or decodes from known fields: an unset fourth field is zero.
abbrev pub TrajectoryFits : TrajectoryReference → Type 0
TrajectoryFits ref =
    Fits ref.trajectory_id
    × (ref.trajectory_type < 2 ^ 64)
    × (ref.field4 < 2 ^ 64)
    × (ref.field4_set ≡ false → ref.field4 ≡ 0)
    × (ref.unknown ≡ [])

abbrev known_trajectory : Bytes → ℕ → ℕ → Bool → TrajectoryReference
known_trajectory id ty f4 set = record {
  trajectory_id = id;
  trajectory_type = ty;
  field4 = f4;
  field4_set = set;
  unknown = [];
}

known_trajectory-Leads :
    (id : Bytes) (ty f4 : ℕ) (set : Bool)
    → Fits id
    → ty < 2 ^ 64
    → f4 < 2 ^ 64
    → (set ≡ false → f4 ≡ 0)
    → Leads trajectory_field no_trajectory
        (encode_trajectory_reference (known_trajectory id ty f4 set))
        (known_trajectory id ty f4 set)
unfolding encode_trajectory_reference trajectory_field
known_trajectory-Leads id ty f4 set hi ht hf unset =
    let step = trajectory_field in
    let start = no_trajectory in
    let l1 =
      Leads-write_string step start (λ x. known_trajectory x 0 0 false) [] 1 id (omega arith)
        (omega arith) hi (λ r. refl) (Leads-empty step start) in
    let l2 =
      Leads-write_uint64 step start (λ x. known_trajectory id x 0 false) _ 3 ty (omega arith)
        (omega arith) ht (λ r. refl) l1 in
    elim set
        as (λ s.
          (s ≡ false → f4 ≡ 0)
          → Leads trajectory_field no_trajectory
              (encode_trajectory_reference (known_trajectory id ty f4 s))
              (known_trajectory id ty f4 s)) [
                | true ↦ λ _.
                    Leads-write_varint step start (known_trajectory id ty 0 false)
                      (λ x. known_trajectory id ty x true) _ 4 f4 (omega arith) (omega arith) hf
                      (λ r. refl) l2
                | false ↦ λ z.
                    subst
                      (λ n.
                        Leads trajectory_field no_trajectory
                          (encode_trajectory_reference (known_trajectory id ty n false))
                          (known_trajectory id ty n false))
                      (sym (z refl)) l2
              ]
      unset

-- The fourth field comes back as absent or as the value it had.
pub decode_trajectory_reference-encode_trajectory_reference :
    (ref : TrajectoryReference)
    → TrajectoryFits ref
    → decode_trajectory_reference (encode_trajectory_reference ref) ≡ ref
unfolding decode_trajectory_reference
decode_trajectory_reference-encode_trajectory_reference ref (hi, ht, hf, unset, known) =
    let whole : known_trajectory ref.trajectory_id ref.trajectory_type ref.field4 ref.field4_set
        ≡ ref =
      ap (λ u. record ref { unknown = u }) (sym known) in
    subst (λ t. (decode trajectory_field no_trajectory (encode_trajectory_reference t)).0 ≡ t) whole
      (decode-Leads trajectory_field no_trajectory _ _ (
        known_trajectory-Leads ref.trajectory_id ref.trajectory_type ref.field4 ref.field4_set hi ht
          hf unset)).0
