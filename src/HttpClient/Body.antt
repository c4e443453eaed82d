-- ===== src/HttpClient/Body.antt =====
-- How much is read of the body of a response.

use bloem_plugin_sdk.Base.{
  ℕ, ◌+◌, ◌*◌, ◌≤◌, Bool, not, ◌||◌, some, [], ◌∷◌, length, leb, drop, ◌≡◌, refl, inl, inr, arith,
  Bool-cases, leb→le, length-drop,
}
use bloem_plugin_sdk.Base.Int.{pos, eqb_ℤ}
use bloem_plugin_sdk.Base.Decimal.{Bytes}
use bloem_plugin_sdk.HttpClient.{
  max_response_body, Response, Json, limited, drain, taken, is_success, handle,
}

length-taken_le : (n : ℕ) (bytes : Bytes) → length (taken n bytes) ≤ length bytes
length-taken_le n bytes = elim (Bool-cases (leb n max_response_body)) [
  | inl e ↦ rw e (omega (arith, length-drop n bytes))
  | inr e ↦ rw e (omega (arith, length-drop max_response_body bytes))
]

length-drop_le : (n : ℕ) (bytes : Bytes) → length bytes ≤ length (drop n bytes) + n
length-drop_le n bytes = omega (arith, length-drop n bytes)

length-taken : (n : ℕ) (bytes : Bytes) → length bytes ≤ length (taken n bytes) + max_response_body
length-taken n bytes = elim (Bool-cases (leb n max_response_body)) [
  | inl e ↦ let le = leb→le n max_response_body e in rw e (omega (arith, length-drop n bytes))
  | inr e ↦ rw e (length-drop_le max_response_body bytes)
]

length-eq-zero : (bytes : Bytes) → length bytes ≤ 0 → bytes ≡ []
length-eq-zero [] h = refl
length-eq-zero (c ∷ bytes) h = absurd (omega arith)

drain-all : (bytes : Bytes) → length bytes ≤ max_response_body → drain bytes ≡ []
drain-all bytes h =
    length-eq-zero (drain bytes) (omega (arith, length-drop max_response_body bytes))

-- What is left of a body, of which `bytes` were left before the drain.
drained :
    (whole bytes : Bytes)
    → length whole ≤ length bytes + max_response_body
    → length bytes ≤ length whole
    → (rest : Bytes) × (some (drain bytes) ≡ some rest)
      × (length whole ≤ length rest + 2 * max_response_body)
      × (length whole ≤ max_response_body → rest ≡ [])
drained whole bytes h k = (
  drain bytes,
  refl,
  omega (arith, length-drop max_response_body bytes),
  λ l. drain-all bytes (omega arith),
)

module _ {B D J E : Type 0} (json : Json B D J E) where
  pub handle_reads :
      (has_dest : Bool) (r : Response E)
      → (rest : Bytes) × ((handle json has_dest r).left ≡ some rest)
        × (length r.body.bytes ≤ length rest + 2 * max_response_body)
        × (length r.body.bytes ≤ max_response_body → rest ≡ [])
  unfolding handle
  handle_reads has_dest r =
      let n = (json.decode (limited max_response_body r.body)).consumed in
      elim (Bool-cases (is_success r.status_code)) [
        | inr e ↦ rw e (drained r.body.bytes r.body.bytes (omega arith) (omega arith))
        | inl e ↦ elim (Bool-cases (not has_dest || eqb_ℤ r.status_code (pos 204))) [
          | inl skips ↦
              rw (e, skips) (drained r.body.bytes r.body.bytes (omega arith) (omega arith))
          | inr reads ↦
              rw (e, reads)
                (drained r.body.bytes (taken n r.body.bytes) (length-taken n r.body.bytes)
                  (length-taken_le n r.body.bytes))
        ]
      ]
