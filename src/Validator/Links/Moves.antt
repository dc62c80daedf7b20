-- ===== src/Validator/Links/Moves.antt =====
-- The ways to change one session and its link.
use shield_net.Prelude.{
  ℕ, ◌≡◌, ap, sym, ◌∙◌, false, Bool-cases, Option, none, some, inl, inr, arith, ◌==◌, if◌then◌else◌,
  Map, get, insert, remove, get-insert, get-remove, ==→eq, some_inj,
}
use shield_net.Validator.Types.{B256, SigningState}
use shield_net.Validator.Sign.{signature_id}
use shield_net.Validator.Links.{IsLinked}

-- The map is another one at `m` alone.
abbrev pub At : {V : Type 0} → Map V → Map V → ℕ → Option V → Type 0
At {V = V} m m' k o = (j : ℕ) → get m' j ≡ (if k == j then o else get m j)

module _ {V : Type 0} (m m' : Map V) (k : ℕ) (o : Option V) (p : At m m' k o) where
  At_self : get m' k ≡ o
  At_self = ground (arith, p k)

  At_ne : (j : ℕ) → (k == j) ≡ false → get m' j ≡ get m j
  At_ne j q = ground (arith, p j)

module _ (signing signing' : Map SigningState) (index index' : Map B256) (m : B256)
    (h : IsLinked signing index) where
  -- A session that replaces one, and has the same signature id, keeps the links.
  pub IsLinked-replace :
      (st st' : SigningState)
      → get signing m ≡ some st
      → signature_id st' ≡ signature_id st
      → At signing signing' m (some st')
      → IsLinked signing' index
  IsLinked-replace st st' g e p = record {
    found = λ j sid x gx ex. elim (Bool-cases (m == j)) [
      | inl q ↦
          let same : st' ≡ x = ground (arith, p j, gx, q) in
          let at_m : get index sid ≡ some m =
            h.found m sid st g (sym e ∙ ap signature_id same ∙ ex) in
          at_m ∙ ap some (==→eq m j q)
      | inr q ↦ h.found j sid x (sym (At_ne signing signing' m (some st') p j q) ∙ gx) ex
    ];
    leads = λ j sid gi.
        let (x, a, b) = h.leads j sid gi in
        elim (Bool-cases (m == j)) [
          | inl q ↦
              let same : st ≡ x = some_inj st x (sym g ∙ ap (get signing) (==→eq m j q) ∙ a) in
              (st', ground (arith, p j, q), e ∙ ap signature_id same ∙ b)
          | inr q ↦ (x, At_ne signing signing' m (some st') p j q ∙ a, b)
        ];
  }

  -- So does a session without a signature id that appears or goes, where there was none with one.
  pub IsLinked-unsigned :
      (o : Option SigningState)
      → ((st : SigningState) → get signing m ≡ some st → signature_id st ≡ none)
      → ((st : SigningState) → o ≡ some st → signature_id st ≡ none)
      → At signing signing' m o
      → IsLinked signing' index
  IsLinked-unsigned o old fresh p = record {
    found = λ j sid x gx ex. elim (Bool-cases (m == j)) [
      | inl q ↦
          let none_here : signature_id x ≡ none = fresh x (ground (arith, p j, gx, q)) in
          absurd (ground (arith, none_here, ex))
      | inr q ↦ h.found j sid x (sym (At_ne signing signing' m o p j q) ∙ gx) ex
    ];
    leads = λ j sid gi.
        let (x, a, b) = h.leads j sid gi in
        elim (Bool-cases (m == j)) [
          | inl q ↦
              let none_here : signature_id x ≡ none = old x (ap (get signing) (==→eq m j q) ∙ a) in
              absurd (ground (arith, none_here, b))
          | inr q ↦ (x, At_ne signing signing' m o p j q ∙ a, b)
        ];
  }

  -- A session goes, with its link.
  pub IsLinked-drop :
      (st : SigningState) (sid : B256)
      → get signing m ≡ some st
      → signature_id st ≡ some sid
      → At signing signing' m none
      → At index index' sid none
      → IsLinked signing' index'
  IsLinked-drop st sid g e p r = record {
    found = λ j sid' x gx ex. elim (Bool-cases (m == j)) [
      | inl q ↦ absurd (ground (arith, p j, gx, q))
      | inr q ↦
          let old : get index sid' ≡ some j =
            h.found j sid' x (sym (At_ne signing signing' m none p j q) ∙ gx) ex in
          ground (arith, r sid', old, h.found m sid st g e, q)
    ];
    leads = λ j sid' gi.
        let ne : (sid == sid') ≡ false = ground (arith, r sid', gi) in
        let (x, a, b) = h.leads j sid' (sym (At_ne index index' sid none r sid' ne) ∙ gi) in
        elim (Bool-cases (m == j)) [
          | inl q ↦
              let same : st ≡ x = some_inj st x (sym g ∙ ap (get signing) (==→eq m j q) ∙ a) in
              let eq : some sid ≡ some sid' = sym e ∙ ap signature_id same ∙ b in
              absurd (ground (arith, eq, ne))
          | inr q ↦ (x, At_ne signing signing' m none p j q ∙ a, b)
        ];
  }

  -- A session without a signature id gets one that no session has.
  pub IsLinked-open :
      (st st' : SigningState) (sid : B256)
      → get signing m ≡ some st
      → signature_id st ≡ none
      → signature_id st' ≡ some sid
      → get index sid ≡ none
      → At signing signing' m (some st')
      → At index index' sid (some m)
      → IsLinked signing' index'
  IsLinked-open st st' sid g e e' f p r = record {
    found = λ j sid' x gx ex. elim (Bool-cases (m == j)) [
      | inl q ↦
          let same : st' ≡ x = ground (arith, p j, gx, q) in
          let eq : some sid ≡ some sid' = sym e' ∙ ap signature_id same ∙ ex in
          ground (arith, r sid', eq, q)
      | inr q ↦
          let old : get index sid' ≡ some j =
            h.found j sid' x (sym (At_ne signing signing' m (some st') p j q) ∙ gx) ex in
          ground (arith, r sid', old, f)
    ];
    leads = λ j sid' gi. elim (Bool-cases (sid == sid')) [
      | inl s ↦
          let eq : m ≡ j = ground (arith, r sid', gi, s) in
          (st', ground (arith, p j, eq), e' ∙ ap some (==→eq sid sid' s))
      | inr s ↦
          let (x, a, b) = h.leads j sid' (sym (At_ne index index' sid (some m) r sid' s) ∙ gi) in
          elim (Bool-cases (m == j)) [
            | inl q ↦
                let same : st ≡ x = some_inj st x (sym g ∙ ap (get signing) (==→eq m j q) ∙ a) in
                let clash : none ≡ some sid' = sym e ∙ ap signature_id same ∙ b in
                absurd (ground (arith, clash))
            | inr q ↦ (x, At_ne signing signing' m (some st') p j q ∙ a, b)
          ]
    ];
  }

module _ {V : Type 0} (m : Map V) (k : ℕ) where
  pub At-put : (v : V) → At m (insert (remove m k) k v) k (some v)
  At-put v j = ground (arith, get-insert (remove m k) k j v, get-remove m k j)

  pub At-insert : (v : V) → At m (insert m k v) k (some v)
  At-insert v j = get-insert m k j v

  pub At-remove : At m (remove m k) k none
  At-remove j = get-remove m k j
