-- ===== src/Proto/RoundTrip/Simple.antt =====
-- Padding, acknowledgments and Hellos.
use mathlib.Core.List.{append_assoc}
use th.Base.{
  ℕ, ◌+◌, ◌*◌, ◌/◌, ◌%◌, ◌^◌, ◌<◌, ◌≡◌, ◌≢◌, refl, List, [], ◌∷◌, ◌++◌, false, Option, none, some,
  length, length-replicate, replicate, arith, ap, ◌∙◌,
}
use th.Proto.Types.{IsU16}
use th.Proto.Value.{Hello, Value, pad1, pad_n, acknowledgment_request, acknowledgment, hello}
use th.Proto.Result.{ok}
use th.Proto.Interval.{centiseconds, append_interval}
use th.Proto.Decode.Fields.{Parser}
use th.Proto.Decode.Loop.{for_each_value}
use th.Proto.Decode.Values.{value_payload, values_callback}
use th.Proto.Reader.{append_uint16, append_uint32}
use th.Proto.Encode.{
  append_hello, append_value, append_pad_n, append_acknowledgment_request, value_length,
}
use th.Proto.Wire.{
  tlv, be16, be32, append_value_header-Appends, for_each_value-tlv, for_each_value-pad1,
}
use th.Proto.RoundTrip.Spec.{IsSentValue, ValueCode, on_wire, parser_after_reading, IsU32Option}

pub be16_value : (v : ℕ) → v < 2 ^ 16 → v / 256 % 256 * 256 + v % 256 ≡ v
be16_value v h = omega arith

pub be32_value :
    (v : ℕ)
    → v < 2 ^ 32
    → ((v / 2 ^ 24 % 256 * 256 + v / 2 ^ 16 % 256) * 256 + v / 2 ^ 8 % 256) * 256 + v % 256 ≡ v
be32_value v h = omega arith

pub centiseconds-u16 : (d : ℕ) → centiseconds d < 2 ^ 16
unfolding centiseconds
centiseconds-u16 d = omega arith

-- A TLV whose payload is decoded whole is one round of the loop in `Values`.
pub values_callback_reads :
    (p : Parser) (v : Value) (vs : List Value) (t : ℕ) (w rest : List ℕ)
    → t ≢ 0
    → value_payload p t w ≡ (parser_after_reading p v, ok (on_wire p v, []))
    → for_each_value (values_callback false) (p, vs) (tlv t w ++ rest)
      ≡ for_each_value
          (values_callback false)
          (parser_after_reading p v, vs ++ (on_wire p v ∷ []))
          rest
values_callback_reads p v vs t w rest nz h =
    for_each_value-tlv (values_callback false) (p, vs) _ t w rest nz
      (unfold values_callback in rw h)

pub pad1_code : ValueCode pad1
unfolding append_value values_callback value_payload value_length
pad1_code = record {
  bytes = 0 ∷ [];
  writes = λ b. refl;
  reads = λ p vs rest.
      for_each_value-pad1 (values_callback false) (p, vs) (p, vs ++ (pad1 ∷ [])) rest refl;
  counted = refl;
}

pub pad_n_code : (n : ℕ) → n < 256 → ValueCode (pad_n n)
unfolding append_value value_length
pad_n_code n h =
    let w : List ℕ = replicate n 0 in
    let len : length w ≡ n = length-replicate n 0 in
    record {
      bytes = tlv 1 w;
      writes =
          append_value_header-Appends 1 (λ c. ok (append_pad_n c n)) w (omega arith) (λ b. refl);
      reads = λ p vs rest.
          values_callback_reads p (pad_n n) vs 1 w rest (omega arith)
            (unfold value_payload in rw len);
      counted = rw len (ap ok (omega arith));
    }

pub acknowledgment_request_code :
    (opaque i : ℕ) → IsU16 opaque → ValueCode (acknowledgment_request opaque i)
unfolding append_value value_length
acknowledgment_request_code opaque i h =
    let w : List ℕ = be16 0 ++ be16 opaque ++ be16 (centiseconds i) in
    record {
      bytes = tlv 2 w;
      writes =
          append_value_header-Appends 2 (λ c. ok (append_acknowledgment_request c opaque i)) w
            (omega arith) (λ b. simp append_assoc);
      reads = λ p vs rest.
          values_callback_reads p (acknowledgment_request opaque i) vs 2 w rest (omega arith) (
            unfold value_payload in
            rw (be16_value opaque h, be16_value (centiseconds i) (centiseconds-u16 i)));
      counted = refl;
    }

pub acknowledgment_code : (opaque : ℕ) → IsU16 opaque → ValueCode (acknowledgment opaque)
unfolding append_value value_length
acknowledgment_code opaque h = record {
  bytes = tlv 3 (be16 opaque);
  writes =
      append_value_header-Appends 3 (λ c. ok (append_uint16 c opaque)) (be16 opaque) (omega arith)
        (λ b. refl);
  reads = λ p vs rest.
      values_callback_reads p (acknowledgment opaque) vs 3 (be16 opaque) rest (omega arith)
        (unfold value_payload in rw (be16_value opaque h));
  counted = refl;
}

-- A Hello, with and without its timestamp.
module _ (flags seqno interval : ℕ) (hf : IsU16 flags) (hs : IsU16 seqno) where
  hello_bytes : List ℕ
  hello_bytes = be16 flags ++ be16 seqno ++ be16 (centiseconds interval)

  hello_of : Option ℕ → Value
  hello_of ts = hello (record { flags = flags; seqno = seqno; interval = interval; timestamp = ts })

  hello_code_of : (ts : Option ℕ) → IsU32Option ts → ValueCode (hello_of ts)
  unfolding append_value value_length hello_of hello_bytes
  hello_code_of none u = record {
    bytes = tlv 4 hello_bytes;
    writes =
        append_value_header-Appends 4
          (λ c.
            append_hello c
              (record { flags = flags; seqno = seqno; interval = interval; timestamp = none }))
          hello_bytes (omega arith) (λ b. simp append_assoc);
    reads = λ p vs rest.
        values_callback_reads p (hello_of none) vs 4 hello_bytes rest (omega arith) (
          unfold value_payload in
          rw (
            be16_value flags hf,
            be16_value seqno hs,
            be16_value (centiseconds interval) (centiseconds-u16 interval),
          ));
    counted = refl;
  }
  hello_code_of (some t) u = record {
    bytes = tlv 4 (hello_bytes ++ tlv 3 (be32 t));
    writes =
        append_value_header-Appends 4
          (λ c.
            append_hello c
              (record { flags = flags; seqno = seqno; interval = interval; timestamp = some t }))
          (hello_bytes ++ tlv 3 (be32 t)) (omega arith)
          (λ b.
            append_value_header-Appends 3 (λ d. ok (append_uint32 d t)) (be32 t) (omega arith)
              (λ d. refl) (append_interval (append_uint16 (append_uint16 b flags) seqno) interval)
            ∙ ap ok (simp append_assoc));
    reads = λ p vs rest.
        values_callback_reads p (hello_of (some t)) vs 4 (hello_bytes ++ tlv 3 (be32 t)) rest
          (omega arith)
          (unfold value_payload in
            rw (
              be16_value flags hf,
              be16_value seqno hs,
              be16_value (centiseconds interval) (centiseconds-u16 interval),
              be32_value t u,
            ));
    counted = refl;
  }

pub hello_code : (v : Hello) → IsSentValue (hello v) → ValueCode (hello v)
unfolding hello_of
hello_code v (hf, hs, ht) = hello_code_of v.flags v.seqno v.interval hf hs v.timestamp ht
