-- ===== src/Mfa/Totp/Replay.antt =====
-- The steps that a method accepts, over any sequence of calls.
use verixa.Prelude.{
  ℕ, String, List, [], ◌∷◌, Option, none, some, ◌==◌, eq_iff, if◌then◌else◌, ap, ◌∙◌, arith, ◌<◌,
  Bool-cases, inl, inr, All,
}
use mathlib.Core.Path.{subst}
use verixa.Kernel.Result.{Result, ok, err}
use verixa.Mfa.Store.{Methods}
use verixa.Mfa.Totp.{
  Algorithm, TotpError, verify_challenge, confirm_enrollment, Attempt, challenging, confirming,
  attempt, step_of, accepted,
}
use verixa.Mfa.Totp.Steps.{
  Above, last_step, IsKeyed, Challenged, verify_challenge-Challenged, confirm_enrollment-Keeps,
}

-- Each item lies below all that follow it.
abbrev pub IsIncreasing : List ℕ → Type 0
IsIncreasing [] = Unit
IsIncreasing (n ∷ ns) = All (λ k. n < k) ns × IsIncreasing ns

Above-step :
    (last : Option ℕ) (n : ℕ) (ns : List ℕ)
    → Above last n
    → All (λ k. n < k) ns
    → All (Above last) ns
Above-step last n [] a h = tt
Above-step none n (k ∷ ns) a h = (tt, Above-step none n ns a h.1)
Above-step (some l) n (k ∷ ns) a h = (omega (arith, h.0), Above-step (some l) n ns a h.1)

-- The steps accepted from a repository on: all above the last step, and increasing.
abbrev Fresh : String → Methods → List ℕ → Type 0
Fresh wanted st steps = All (Above (last_step wanted st)) steps × IsIncreasing steps

challenge-Fresh :
    (wanted id code : String) (now : ℕ) (st st2 : Methods) (answer : Result ℕ TotpError)
    (steps : List ℕ)
    → Challenged id st st2 answer
    → Fresh wanted st2 steps
    → Fresh wanted st (step_of wanted (challenging id code now) answer steps)
challenge-Fresh wanted id code now st st2 (err x) steps c f =
    subst (λ l. All (Above l) steps × IsIncreasing steps) (c.1 wanted) f
challenge-Fresh wanted id code now st st2 (ok step) steps c f = elim (Bool-cases (id == wanted)) [
  | inl same ↦
      let now_last = c.2 wanted ∙ ap (λ b. if b then some step else last_step wanted st) same in
      let above = subst (λ l. All (Above l) steps) now_last f.0 in
      let here = subst (λ x. Above (last_step x st) step) ((eq_iff id wanted).0 same) c.1 in
      rw same ((here, Above-step (last_step wanted st) step steps here above), (above, f.1))
  | inr other ↦ rw other (
      subst (λ l. All (Above l) steps × IsIncreasing steps)
        (c.2 wanted ∙ ap (λ b. if b then some step else last_step wanted st) other) f)
]

Challenged-IsKeyed :
    (id : String) (st st2 : Methods) (answer : Result ℕ TotpError)
    → Challenged id st st2 answer
    → IsKeyed st2
Challenged-IsKeyed id st st2 (ok step) c = c.0
Challenged-IsKeyed id st st2 (err e) c = c.0

-- For every algorithm and every sequence of challenges and confirmations, over a repository
-- whose methods stand under their ids, the steps for which challenges of one method succeed
-- increase and lie above the method's last step at the start; so no step is accepted twice.
pub accepted-Fresh :
    (verify : Algorithm) (wanted : String) (calls : List Attempt) (st : Methods)
    → IsKeyed st
    → All (Above (last_step wanted st)) (accepted verify wanted calls st)
      × IsIncreasing (accepted verify wanted calls st)
unfolding accepted attempt
accepted-Fresh verify wanted [] st k = (tt, tt)
accepted-Fresh verify wanted (challenging id code now ∷ rest) st k =
    let c = verify_challenge-Challenged verify id code now st k in
    challenge-Fresh wanted id code now st _ _ _ c (
      accepted-Fresh verify wanted rest (verify_challenge verify id code now st).methods
        (Challenged-IsKeyed id st _ _ c))
accepted-Fresh verify wanted (confirming id code now ∷ rest) st k =
    let c = confirm_enrollment-Keeps verify id code now st k in
    subst
      (λ l.
        All (Above l)
          (accepted verify wanted rest (confirm_enrollment verify id code now st).methods)
        × IsIncreasing
            (accepted verify wanted rest (confirm_enrollment verify id code now st).methods))
      (c.1 wanted)
      (accepted-Fresh verify wanted rest (confirm_enrollment verify id code now st).methods c.0)
