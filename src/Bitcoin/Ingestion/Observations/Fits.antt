-- ===== src/Bitcoin/Ingestion/Observations/Fits.antt =====
-- The fields that are read are there or have their defaults, and the mempool fits its limit.
use mathlib.Core.Option
use blocxxi.Base.{
  ℕ, zero, suc, ◌≤◌, ◌<◌, inl, inr, [], ◌∷◌, List, Bytes, text, Option, none, some, length,
  length-drop, drop, Outcome, Returns, Returns_bind, Any, after_any, Bool-cases, arith,
}
use blocxxi.Bitcoin.Ingestion.Json.{
  trim, encloses, Member, malformed, finished, member, next_member, find_object_value,
}
use blocxxi.Bitcoin.Ingestion.Json.Ends.{Ends, Leaves, next_member-Leaves, find_object_value-Ends}
use blocxxi.Bitcoin.Ingestion.Observations.{
  Doubles, TransactionObservation, field_or, integer_field, double_field, base_fee, observation,
  observe, mempool_loop, parse_mempool_transactions,
}

pub Any_of : {A : Type 0} (m : Outcome A) → Ends m → Returns Any m
Any_of m (a, e) = rw e tt

pub found : (raw key : Bytes) → Returns Any (find_object_value raw key)
found raw key = Any_of (find_object_value raw key) (find_object_value-Ends raw key)

pub field_or-Any : (object key default : Bytes) → Returns Any (field_or object key default)
unfolding field_or
field_or-Any object key default =
    after_any Any (find_object_value object key) _ (found object key) (λ a. tt)

pub integer_field-Any : (object key : Bytes) → Returns Any (integer_field object key)
unfolding integer_field
integer_field-Any object key =
    after_any Any (field_or object key (b'0' ∷ [])) _ (field_or-Any object key (b'0' ∷ []))
      (λ a. tt)

-- The mempool.
module _ {D : Type 0} (doubles : Doubles D) where
  pub double_field-Any : (object key : Bytes) → Returns Any (double_field doubles object key)
  unfolding double_field
  double_field-Any object key =
      after_any Any (field_or object key (b'0' ∷ [])) _ (field_or-Any object key (b'0' ∷ []))
        (λ a. tt)

  base_fee-Any : (fees : Option Bytes) → Returns Any (base_fee doubles fees)
  unfolding base_fee
  base_fee-Any none = tt
  base_fee-Any (some fees) =
      after_any Any (find_object_value fees (text "base")) _ (found fees (text "base")) (λ a. tt)

  observation-Any : (key entry : Bytes) → Returns Any (observation doubles key entry)
  unfolding observation
  observation-Any key entry =
      after_any Any (integer_field entry (text "vsize")) _ (integer_field-Any entry (text "vsize"))
        (λ vsize.
          after_any Any (integer_field entry (text "weight")) _
            (integer_field-Any entry (text "weight"))
            (λ weight.
              after_any Any (find_object_value entry (text "fees")) _ (found entry (text "fees"))
                (λ fees. after_any Any (base_fee doubles fees) _ (base_fee-Any fees) (λ fee. tt))))

  abbrev pub Fits : ℕ → Option (List (TransactionObservation D)) → Type 0
  Fits limit none = Unit
  Fits limit (some entries) = length entries ≤ limit

  cons-Fits :
      (limit : ℕ) (x : TransactionObservation D) (o : Option (List (TransactionObservation D)))
      → Fits limit o
      → Fits (suc limit) (Option.map (λ entries. x ∷ entries) o)
  cons-Fits limit x none h = tt
  cons-Fits limit x (some entries) h = omega (arith, h)

  observe-Fits :
      (rest : Bytes → Outcome (Option (List (TransactionObservation D)))) (limit n : ℕ) (m : Member)
      → Leaves n m
      → ((s : Bytes) → length s < n → Returns (Fits limit) (rest s))
      → Returns (Fits (suc limit)) (observe doubles rest m)
  unfolding observe
  observe-Fits rest limit n malformed h k = tt
  observe-Fits rest limit n finished h k = omega arith
  observe-Fits rest limit n (member key value s) h k =
      after_any (Fits (suc limit)) (observation doubles key (trim value)) _
        (observation-Any key (trim value))
        (λ x.
          Returns_bind (Fits (suc limit)) (Fits limit) (rest s) _ (k s h)
            (λ o fits. cons-Fits limit x o fits))

  mempool_loop-Fits :
      (fuel limit : ℕ) (s : Bytes)
      → length s < fuel
      → Returns (Fits limit) (mempool_loop doubles fuel limit s)
  unfolding mempool_loop
  mempool_loop-Fits zero limit s h = absurd (omega arith)
  mempool_loop-Fits (suc fuel) zero s h = omega arith
  mempool_loop-Fits (suc fuel) (suc limit) [] h = unfold observe next_member in omega arith
  mempool_loop-Fits (suc fuel) (suc limit) (c ∷ s) h =
      observe-Fits (λ t. mempool_loop doubles fuel limit t) limit (length (c ∷ s))
        (next_member (c ∷ s)) (next_member-Leaves (c ∷ s) (omega arith))
        (λ t k. mempool_loop-Fits fuel limit t (omega (arith, k, h)))

  pub parse_mempool-Fits :
      (raw : Bytes) (limit : ℕ)
      → Returns (Fits limit) (parse_mempool_transactions doubles raw limit)
  unfolding parse_mempool_transactions
  parse_mempool-Fits raw limit = elim (Bool-cases (encloses b'{' b'}' (trim raw))) [
    | inr e ↦ rw e (tt)
    | inl e ↦ rw e (
        mempool_loop-Fits (suc (length (trim raw))) limit (drop 1 (trim raw))
          (omega (arith, length-drop 1 (trim raw))))
  ]
