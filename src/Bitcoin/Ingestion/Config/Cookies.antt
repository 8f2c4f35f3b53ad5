-- ===== src/Bitcoin/Ingestion/Config/Cookies.antt =====
-- The cookie that LoadCookie reads.
use mathlib.Core.Option
use blocxxi.Base.{
  ℕ, suc, ◌+◌, ◌≡◌, ◌≢◌, refl, sym, ap, ◌∙◌, subst, [], ◌∷◌, ◌++◌, List, Bytes, Option, none, some,
  All, take, drop, index_of, ◌==◌, Bool-cases, Option-cases, inl, inr, arith,
}
use blocxxi.Base.Scan.{lines}
use blocxxi.Bitcoin.Ingestion.Config.{Surroundings, cookie_of, load_cookie}

-- The file at the path begins with a line of the user, a colon, and the password; the user has no colon.
abbrev pub HasCookie : Surroundings → Bytes → Bytes → Bytes → Type 0
HasCookie w path user secret =
    (s : Bytes) × (rest : List Bytes) × (w.read_file path ≡ some s)
    × (lines s ≡ (user ++ b':' ∷ secret) ∷ rest)
    × All (λ c. c ≢ b':') user

index_of-some :
    (d : ℕ) (s : Bytes) (i : ℕ)
    → index_of d s ≡ some i
    → (s ≡ take i s ++ d ∷ drop (i + 1) s) × All (λ c. c ≢ d) (take i s)
unfolding index_of
index_of-some d [] i h = cc
index_of-some d (c ∷ s) i h = elim (Bool-cases (c == d)) [
  | inl e ↦ first i (rw e at h) (ground (arith, e))
  | inr e ↦ elim (Option-cases (index_of d s)) [
    | inl gone ↦ absurd (cc (rw gone at (rw e at h)))
    | inr (j, found) ↦
        let (split, clean) = index_of-some d s j found in
        subst
          (λ k.
            ((c ∷ s) ≡ take k (c ∷ s) ++ d ∷ drop (k + 1) (c ∷ s))
            × All (λ x. x ≢ d) (take k (c ∷ s)))
          (some_injective (rw found at (rw e at h)))
          (
            ap (λ t. c ∷ t) split ∙ ap (λ n. c ∷ (take j s ++ d ∷ drop n (c ∷ s))) (behind j),
            ((λ same. ground (arith, e, same)), clean),
          )
  ]
]
  where
    behind : (j : ℕ) → suc (j + 1) ≡ suc j + 1
    behind j = omega arith

    some_injective : {a b : ℕ} → some a ≡ some b → a ≡ b
    some_injective p = cc

    first :
        (k : ℕ)
        → some 0 ≡ some k
        → c ≡ d
        → ((c ∷ s) ≡ take k (c ∷ s) ++ d ∷ drop (k + 1) (c ∷ s)) × All (λ x. x ≢ d) (take k (c ∷ s))
    first k p same =
        subst
          (λ n.
            ((c ∷ s) ≡ take n (c ∷ s) ++ d ∷ drop (n + 1) (c ∷ s))
            × All (λ x. x ≢ d) (take n (c ∷ s)))
          (some_injective p) (ap (λ x. x ∷ s) same, tt)

-- A piece without the separator in front of one is found again.
index_of-append :
    (d : ℕ) (s rest : Bytes) → All (λ c. c ≢ d) s → (i : ℕ) × (index_of d (s ++ d ∷ rest) ≡ some i)
unfolding index_of
index_of-append d [] rest h = (0, ground arith)
index_of-append d (c ∷ s) rest h =
    let (i, e) = index_of-append d s rest h.1 in (suc i, ground (arith, h.0, e))

pub load_cookie-HasCookie :
    (w : Surroundings) (path user secret : Bytes)
    → load_cookie w path ≡ some (user, secret)
    → HasCookie w path user secret
unfolding load_cookie cookie_of
load_cookie-HasCookie w path user secret h = opened (w.read_file path) refl h
  where
    within :
        (s : Bytes)
        → w.read_file path ≡ some s
        → (ls : List Bytes) → lines s ≡ ls
        → cookie_of ls ≡ some (user, secret)
        → HasCookie w path user secret
    within s read [] e k = absurd (cc k)
    within s read (line ∷ rest) e k = elim (Option-cases (index_of b':' line)) [
      | inl gone ↦ absurd (cc (rw gone at k))
      | inr (i, found) ↦
          let (split, clean) = index_of-some b':' line i found in
          let pair : some (take i line, drop (i + 1) line) ≡ some (user, secret) = rw found at k in
          let fst : take i line ≡ user = cc pair in
          let snd : drop (i + 1) line ≡ secret = cc pair in
          (
            s,
            rest,
            read,
            e ∙ ap (λ l. l ∷ rest) (split ∙ (λ j. fst j ++ b':' ∷ snd j)),
            subst (λ u. All (λ c. c ≢ b':') u) fst clean,
          )
    ]

    opened :
        (o : Option Bytes)
        → w.read_file path ≡ o
        → elim o [ none ↦ none | some s ↦ cookie_of (lines s) ] ≡ some (user, secret)
        → HasCookie w path user secret
    opened none read k = absurd (cc k)
    opened (some s) read k = within s read (lines s) refl k

pub load_cookie-none :
    (w : Surroundings) (path : Bytes)
    → load_cookie w path ≡ none
    → (user secret : Bytes) → ¬ HasCookie w path user secret
unfolding load_cookie cookie_of
load_cookie-none w path h user secret (s, rest, read, first, clean) =
    let (i, found) = index_of-append b':' user secret clean in
    let line = user ++ b':' ∷ secret in
    let loaded : load_cookie w path ≡ some (take i line, drop (i + 1) line) =
      ap opened read
      ∙ ap cookie_of first
      ∙ ap (λ o. Option.map (λ n. (take n line, drop (n + 1) line)) o) found in
    cc (sym loaded ∙ h)
  where
    opened : Option Bytes → Option (Bytes × Bytes)
    opened o = elim o [ none ↦ none | some t ↦ cookie_of (lines t) ]
