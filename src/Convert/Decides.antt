-- ===== src/Convert/Decides.antt =====
-- What a conversion of heimdall2-master/libs/inspecjs/src/generated_parsers/v_1_0/exec-json.ts decides,
-- and the steps that keep such decisions.
use security_scan.Convert.Transform.{Converted, done, invalid_value, then_convert}

-- The conversion gives a result with `Q` where `P` holds, and throws where it does not; it does not
-- run out of fuel.
pub data Decides {A : Type 0} (P : Type 0) (Q : A → Type 0) : Converted A → Type 0 where
  accepts : {v : A} → P → Q v → Decides P Q (done v)
  rejects : ¬ P → Decides P Q invalid_value

pub then-Decides :
    {A B : Type 0} {P R : Type 0} {Q : A → Type 0} {S : B → Type 0} {c : Converted A}
    (f : A → Converted B)
    → Decides P Q c
    → ((v : A) → P → Q v → Decides R S (f v))
    → (R → P)
    → Decides R S (then_convert c f)
then-Decides f (accepts p q) next back = next _ p q
then-Decides f (rejects n) next back = rejects (λ r. n (back r))

pub weaken_decision :
    {A : Type 0} {P R : Type 0} {Q S : A → Type 0} {c : Converted A}
    → Decides P Q c
    → (P → R)
    → (R → P)
    → ((v : A) → Q v → S v)
    → Decides R S c
weaken_decision (accepts p q) f g h = accepts (f p) (h _ q)
weaken_decision (rejects n) f g h = rejects (λ r. n (g r))
