-- ===== src/ServerLists/Save.antt =====
-- Saving an evaluation in the list that mirrors the server's: SAVE_EVALUTION of evaluations.ts.
use security_scan.Prelude.{
  String, ◌≡◌, refl, sym, ap, ◌∙◌, inl, inr, true, false, Option, some, List, [], ◌∷◌, str_eq,
  eq_iff, find, arith, Bool-cases, if◌then◌else◌,
}
use security_scan.ServerLists.{HeldEvaluation, save_evaluation}

abbrev pub with_id : String → List HeldEvaluation → Option HeldEvaluation
with_id id es = find (λ e. str_eq e.id id) es

behind :
    (new e : HeldEvaluation) (id : String) (o : Option HeldEvaluation)
    → str_eq new.id e.id ≡ true
    → (if str_eq new.id id then some new else o)
      ≡ (if str_eq new.id id then some new else (if str_eq e.id id then some e else o))
behind new e id o same = elim (Bool-cases (str_eq new.id id)) [
  | inl f ↦ rw f refl
  | inr f ↦ rw (f, sym (ap (λ i. str_eq i id) ((eq_iff new.id e.id).0 same)) ∙ f) refl
]

before :
    (new e : HeldEvaluation) (id : String) (o : Option HeldEvaluation)
    → str_eq new.id e.id ≡ false
    → (if str_eq e.id id then some e else (if str_eq new.id id then some new else o))
      ≡ (if str_eq new.id id then some new else (if str_eq e.id id then some e else o))
before new e id o other = elim (Bool-cases (str_eq e.id id)) [
  | inr f ↦ rw f refl
  | inl f ↦ elim (Bool-cases (str_eq new.id id)) [
    | inr g ↦ rw (f, g) refl
    | inl g ↦ absurd (
        ground (
          arith,
          other,
          (eq_iff new.id e.id).1 ((eq_iff new.id id).0 g ∙ sym ((eq_iff e.id id).0 f)),
        ))
  ]
]

-- After an evaluation is saved, it is the one of its id, and the one of every other id is as before.
pub save_evaluation_lem :
    (new : HeldEvaluation) (es : List HeldEvaluation) (id : String)
    → with_id id (save_evaluation new es) ≡ (if str_eq new.id id then some new else with_id id es)
unfolding save_evaluation
save_evaluation_lem new [] id = refl
save_evaluation_lem new (e ∷ es) id = elim (Bool-cases (str_eq new.id e.id)) [
  | inl same ↦ rw same (behind new e id (with_id id es) same)
  | inr other ↦ rw other (
      ap (λ o. if str_eq e.id id then some e else o) (save_evaluation_lem new es id)
      ∙ before new e id (with_id id es) other)
]
