-- ===== src/Validator/Links/Sessions.antt =====
-- One session taken out of the map, and what is put in its place.
use shield_net.Prelude.{
  ◌≡◌, refl, ap, sym, ◌∙◌, Bool, true, false, none, some, List, arith, if◌then◌else◌, Map, get,
  insert, remove, some_inj,
}
use shield_net.Validator.Types.{B256, SigningState, State, Command}
use shield_net.Validator.Sign.{signature_id}
use shield_net.Validator.Links.{IsLinked, Linked}
use shield_net.Validator.Links.Moves.{
  IsLinked-replace, IsLinked-unsigned, IsLinked-drop, IsLinked-open, At-put, At-insert, At-remove,
}

module _ (signing : Map SigningState) (index : Map B256) (m : B256)
    (h : IsLinked signing index) where
  pub put_back :
      (st : SigningState)
      → get signing m ≡ some st
      → IsLinked (insert (remove signing m) m st) index
  put_back st g =
      IsLinked-replace signing (insert (remove signing m) m st) index index m h st st g refl
        (At-put signing m st)

  pub replace_in :
      (st st' : SigningState)
      → get signing m ≡ some st
      → signature_id st' ≡ signature_id st
      → IsLinked (insert (remove signing m) m st') index
  replace_in st st' g e =
      IsLinked-replace signing (insert (remove signing m) m st') index index m h st st' g e
        (At-put signing m st')

  pub take_none : get signing m ≡ none → IsLinked (remove signing m) index
  take_none g =
      IsLinked-unsigned signing (remove signing m) index index m h none
        (λ st e. absurd (ground (arith, g, e))) (λ st e. absurd (ground (arith, e)))
        (At-remove signing m)

  pub take_unsigned :
      (st : SigningState)
      → get signing m ≡ some st
      → signature_id st ≡ none
      → IsLinked (remove signing m) index
  take_unsigned st g u =
      IsLinked-unsigned signing (remove signing m) index index m h none
        (λ x e. ap signature_id (some_inj x st (sym e ∙ g)) ∙ u) (λ x e. absurd (ground (arith, e)))
        (At-remove signing m)

  pub open_in :
      (st st' : SigningState) (sid : B256)
      → get signing m ≡ some st
      → signature_id st ≡ none
      → signature_id st' ≡ some sid
      → get index sid ≡ none
      → IsLinked (insert (remove signing m) m st') (insert index sid m)
  open_in st st' sid g e e' f =
      IsLinked-open signing (insert (remove signing m) m st') index (insert index sid m) m h st st'
        sid g e e' f (At-put signing m st') (At-insert index sid m)

  pub drop_in :
      (st : SigningState) (sid : B256)
      → get signing m ≡ some st
      → signature_id st ≡ some sid
      → IsLinked (remove signing m) (remove index sid)
  drop_in st sid g e =
      IsLinked-drop signing (remove signing m) index (remove index sid) m h st sid g e
        (At-remove signing m) (At-remove index sid)

pub if_Linked :
    (b : Bool) (x y : State × List Command)
    → (b ≡ true → Linked x.0)
    → (b ≡ false → Linked y.0)
    → Linked (if b then x else y).0
if_Linked true x y p q = p refl
if_Linked false x y p q = q refl

pub if_State :
    (b : Bool) (x y : State)
    → (b ≡ true → Linked x)
    → (b ≡ false → Linked y)
    → Linked (if b then x else y)
if_State true x y p q = p refl
if_State false x y p q = q refl
