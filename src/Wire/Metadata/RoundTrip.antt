-- ===== src/Wire/Metadata/RoundTrip.antt =====
-- internal/devin/wire.go: the metadata comes back as it was sent.
use devin2proxy.Prelude.{
  ℕ, ◌+◌, ◌-◌, ◌<◌, ◌≡◌, refl, sym, ap, ◌∙◌, subst, zero, suc, none, List, [], ◌∷◌, ◌++◌, All,
  Bytes, arith, length, drop, append-nil, append_assoc, length-append,
}
use devin2proxy.Pb.Writer.{write_raw_bytes, write_packed_varints, varints, varint}
use devin2proxy.Pb.Reader.{Reader, new_reader, remaining, advance, read_varint, read_bytes}
use devin2proxy.Wire.Loop.{Leads, Leads-empty, decode-Leads}
use devin2proxy.Wire.Writes.{Leads-write_string, Leads-write_raw_bytes}
use devin2proxy.Wire.Tools.{Fits}
use devin2proxy.Pb.Varint.{read_varint-varint, varint-append, varint_nonempty}
use devin2proxy.Pb.Fields.{length-drop}
use devin2proxy.Wire.Metadata.{
  unpack_loop, unpack, Metadata, no_metadata, metadata_field, decode_metadata, append_to,
  encode_metadata, Uint64, MetadataFits,
}

remaining_clean : (r : Reader) → r.err ≡ none → remaining r ≡ length (drop r.i r.buf)
unfolding remaining
remaining_clean r he = rw (he, length-drop r.i r.buf) (ground arith)

unpack_loop_end :
    (rounds : ℕ) (r : Reader) (done : List ℕ)
    → remaining r ≡ 0
    → unpack_loop (suc rounds) r done ≡ done
unfolding unpack_loop
unpack_loop_end rounds r done h = rw h refl

unpack_loop_next :
    (rounds n v : ℕ) (r r' : Reader) (done : List ℕ)
    → remaining r ≡ suc n
    → read_varint r ≡ (v, r')
    → r'.err ≡ none
    → unpack_loop (suc rounds) r done ≡ unpack_loop rounds r' (done ++ (v ∷ []))
unfolding unpack_loop
unpack_loop_next rounds n v r r' done h e clean = rw (h, e, clean) (ground arith)

varints-append :
    (buf : Bytes) (vals : List ℕ) → All Uint64 vals → varints buf vals ≡ buf ++ varints [] vals
unfolding varints
varints-append buf [] h = sym (append-nil buf)
varints-append buf (v ∷ vals) (hv, h) =
    varints-append (varint buf v) vals h
    ∙ ap (λ t. t ++ varints [] vals) (varint-append buf v hv)
    ∙ append_assoc buf (varint [] v) (varints [] vals)
    ∙ ap (λ t. buf ++ t) (sym (varints-append (varint [] v) vals h))

-- The packed run comes back as the numbers in it.
unpack_loop-varints :
    (vals : List ℕ) (rounds : ℕ) (r : Reader) (done : List ℕ)
    → All Uint64 vals
    → r.err ≡ none
    → drop r.i r.buf ≡ varints [] vals
    → length (varints [] vals) < rounds
    → unpack_loop rounds r done ≡ done ++ vals
unfolding varints
unpack_loop-varints vals zero r done h he e enough = absurd (omega arith)
unpack_loop-varints [] (suc rounds) r done h he e enough =
    unpack_loop_end rounds r done (remaining_clean r he ∙ ap length e) ∙ sym (append-nil done)
unpack_loop-varints (v ∷ vals) (suc rounds) r done (hv, h) he e enough =
    let split = varints-append (varint [] v) vals h in
    let size : length (varints (varint [] v) vals)
        ≡ length (varint [] v) + length (varints [] vals) =
      ap length split ∙ length-append (varint [] v) (varints [] vals) in
    let some_left = varint_nonempty v hv in
    let (value, after) = read_varint-varint r v (varints [] vals) hv (e ∙ split) in
    let n = length (varints (varint [] v) vals) - 1 in
    let left : remaining r ≡ suc n = remaining_clean r he ∙ ap length e ∙ omega arith in
    unpack_loop_next rounds n v r (advance r (length (varint [] v))) done left value he
    ∙ unpack_loop-varints vals rounds (advance r (length (varint [] v))) (done ++ (v ∷ [])) h he
        after (omega arith)
    ∙ append_assoc done (v ∷ []) vals

unpack-varints : (vals : List ℕ) → All Uint64 vals → unpack (varints [] vals) [] ≡ vals
unfolding unpack new_reader
unpack-varints vals h =
    unpack_loop-varints vals (suc (length (varints [] vals))) (new_reader (varints [] vals)) [] h
      refl refl (omega arith)

Leads-write_packed_varints :
    (start : Metadata) (set : List ℕ → Metadata) (buf : Bytes) (vals : List ℕ)
    → All Uint64 vals
    → Fits (varints [] vals)
    → ((r : Reader)
        → metadata_field 30 2 r (set []) ≡ (set (unpack (read_bytes r).0 []), (read_bytes r).1))
    → Leads metadata_field start buf (set [])
    → Leads metadata_field start (write_packed_varints buf 30 vals) (set vals)
unfolding write_packed_varints
Leads-write_packed_varints start set buf [] h size takes leads = leads
Leads-write_packed_varints start set buf (v ∷ vals) h size takes leads =
    subst (λ t. Leads metadata_field start (write_raw_bytes buf 30 (varints [] (v ∷ vals))) (set t))
      (unpack-varints (v ∷ vals) h)
      (Leads-write_raw_bytes metadata_field start (set []) (λ b. set (unpack b [])) buf 30
        (varints [] (v ∷ vals)) (omega arith) (omega arith) size (λ r ok. takes r) leads)

pub decode_metadata-encode_metadata :
    (m : Metadata) → MetadataFits m → decode_metadata (encode_metadata m) ≡ m
unfolding decode_metadata encode_metadata append_to metadata_field
decode_metadata-encode_metadata m (h0, h1, h2, h3, h4, h5, h6, h7, h8, h8s, h9) =
    let start = no_metadata in
    let l0 = Leads-empty metadata_field start in
    let l1 =
      Leads-write_string metadata_field start (λ x. record start { ide_name = x }) [] 1 m.ide_name
        (omega arith) (omega arith) h0 (λ r. refl) l0 in
    let l2 =
      Leads-write_string metadata_field start
        (λ x. record start { ide_name = m.ide_name; extension_version = x }) _ 2 m.extension_version
        (omega arith) (omega arith) h1 (λ r. refl) l1 in
    let l3 =
      Leads-write_string metadata_field start
        (λ x. record start {
          ide_name = m.ide_name;
          extension_version = m.extension_version;
          api_key = x;
        })
        _ 3 m.api_key (omega arith) (omega arith) h2 (λ r. refl) l2 in
    let l4 =
      Leads-write_string metadata_field start
        (λ x. record start {
          ide_name = m.ide_name;
          extension_version = m.extension_version;
          api_key = m.api_key;
          locale = x;
        })
        _ 4 m.locale (omega arith) (omega arith) h3 (λ r. refl) l3 in
    let l5 =
      Leads-write_string metadata_field start
        (λ x. record start {
          ide_name = m.ide_name;
          extension_version = m.extension_version;
          api_key = m.api_key;
          locale = m.locale;
          os = x;
        })
        _ 5 m.os (omega arith) (omega arith) h4 (λ r. refl) l4 in
    let l6 =
      Leads-write_string metadata_field start
        (λ x. record start {
          ide_name = m.ide_name;
          extension_version = m.extension_version;
          api_key = m.api_key;
          locale = m.locale;
          os = m.os;
          ide_version = x;
        })
        _ 7 m.ide_version (omega arith) (omega arith) h5 (λ r. refl) l5 in
    let l7 =
      Leads-write_string metadata_field start
        (λ x. record start {
          ide_name = m.ide_name;
          extension_version = m.extension_version;
          api_key = m.api_key;
          locale = m.locale;
          os = m.os;
          ide_version = m.ide_version;
          extension_name = x;
        })
        _ 12 m.extension_name (omega arith) (omega arith) h6 (λ r. refl) l6 in
    let l8 =
      Leads-write_string metadata_field start
        (λ x. record start {
          ide_name = m.ide_name;
          extension_version = m.extension_version;
          api_key = m.api_key;
          locale = m.locale;
          os = m.os;
          ide_version = m.ide_version;
          extension_name = m.extension_name;
          field28 = x;
        })
        _ 28 m.field28 (omega arith) (omega arith) h7 (λ r. refl) l7 in
    let l9 =
      Leads-write_packed_varints start
        (λ x. record start {
          ide_name = m.ide_name;
          extension_version = m.extension_version;
          api_key = m.api_key;
          locale = m.locale;
          os = m.os;
          ide_version = m.ide_version;
          extension_name = m.extension_name;
          field28 = m.field28;
          field30 = x;
        })
        _ m.field30 h8 h8s (λ r. refl) l8 in
    let l10 =
      Leads-write_string metadata_field start
        (λ x. record start {
          ide_name = m.ide_name;
          extension_version = m.extension_version;
          api_key = m.api_key;
          locale = m.locale;
          os = m.os;
          ide_version = m.ide_version;
          extension_name = m.extension_name;
          field28 = m.field28;
          field30 = m.field30;
          field31 = x;
        })
        _ 31 m.field31 (omega arith) (omega arith) h9 (λ r. refl) l9 in
    (decode-Leads metadata_field start m _ l10).0
