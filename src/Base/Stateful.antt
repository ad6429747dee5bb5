-- ===== src/Base/Stateful.antt =====
-- Methods that write fields of their receiver and may fail: what was written before an error stays.
use noise_ssu.Base.Fallible.{Outcome, ok, err}

abbrev pub Stateful : Type 0 → Type 0 → Type 0 → Type 0
Stateful S E A = S → Outcome E A × S

abbrev pub continue : {S E A B : Type 0} → Outcome E A × S → (A → Stateful S E B) → Outcome E B × S
continue (ok a, s) next = next a s
continue (err e, s) next = (err e, s)

infixl 5 ◌>>=◌
abbrev pub ◌>>=◌ : {S E A B : Type 0} → Stateful S E A → (A → Stateful S E B) → Stateful S E B
◌>>=◌ first next s = continue (first s) next

infixl 5 ◌>>◌
abbrev pub ◌>>◌ : {S E B : Type 0} → Stateful S E (Unit {0}) → Stateful S E B → Stateful S E B
◌>>◌ first second s = continue (first s) (λ _. second)

abbrev pub pure : {S E A : Type 0} → A → Stateful S E A
pure a s = (ok a, s)

abbrev pub fail : {S E A : Type 0} → E → Stateful S E A
fail e s = (err e, s)

abbrev pub get : {S E : Type 0} → Stateful S E S
get s = (ok s, s)

abbrev pub modify : {S E : Type 0} → (S → S) → Stateful S E (Unit {0})
modify change s = (ok tt, change s)

abbrev pub lift : {S E A : Type 0} → Outcome E A → Stateful S E A
lift (ok a) s = (ok a, s)
lift (err e) s = (err e, s)
