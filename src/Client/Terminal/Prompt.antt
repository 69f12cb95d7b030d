-- ===== src/Client/Terminal/Prompt.antt =====
-- The terminal is ready for the next command after each.
use remote_access_platform.Prelude.{
  ℕ, ◌-◌, ◌≤◌, length, drop, length-append, drop-append, drop-drop, ◌≡◌, ◌≢◌, inl, inr, refl, sym,
  ap, ◌∙◌, [], ◌∷◌, ◌++◌, if◌then◌else◌, same, arith, Bool, true, false, Bool-cases,
}
use remote_access_platform.Qt.{Text, QtText, literal}
use mathlib.Core.Path.{subst}
use remote_access_platform.Client.{Session, put, terminal_output_changed, terminal_output_received}
use remote_access_platform.Client.Terminal.{response, send_terminal_input, clear_terminal}

-- The text ends with the prompt.
pub record Prompts (text : Text) : Type 0 where
  pub long : 2 ≤ length text
  pub prompt : drop (length text - 2) text ≡ literal "$ "

if-Prompts : (c : Bool) {x y : Text} → Prompts x → Prompts y → Prompts (if c then x else y)
if-Prompts true p q = p
if-Prompts false p q = q

append-Prompts : (x : Text) {y : Text} → Prompts y → Prompts (x ++ y)
append-Prompts x {y} p = record {
  long = omega (arith, length-append x y, p.long);
  prompt =
      ap (λ (n : ℕ). drop n (x ++ y)) (omega (arith, length-append x y, p.long))
      ∙ sym (drop-drop (length y - 2) (length x) (x ++ y))
      ∙ ap (drop (length y - 2)) (drop-append (length x) x y refl)
      ∙ p.prompt;
}

response-Prompts : (command : Text) → Prompts (response command)
unfolding response
response-Prompts command =
    if-Prompts (same command (literal "help")) (record { long = omega arith; prompt = refl })
      (if-Prompts (same command (literal "uname -a")) (record { long = omega arith; prompt = refl })
        (if-Prompts (same command (literal "whoami")) (record { long = omega arith; prompt = refl })
          (if-Prompts (same command (literal "uptime"))
            (record { long = omega arith; prompt = refl })
            (if-Prompts (same command (literal "free -h"))
              (record { long = omega arith; prompt = refl })
              (if-Prompts (same command (literal "ps aux"))
                (record { long = omega arith; prompt = refl })
                (append-Prompts (literal "bash: ")
                  (append-Prompts command (record { long = omega arith; prompt = refl }))))))))

-- After any command that is not empty the terminal's text ends with the prompt.
send_terminal_input-Prompts :
    (qt : QtText) (command : Text) (s : Session)
    → command ≢ []
    → Prompts (send_terminal_input qt command s).terminal_output
unfolding send_terminal_input clear_terminal
send_terminal_input-Prompts qt [] s ne = absurd (ne refl)
send_terminal_input-Prompts qt (b ∷ command) s ne =
    elim (Bool-cases (same (qt.trimmed (b ∷ command)) (literal "clear"))) [
      | inl e ↦
          subst Prompts
            (sym (ap (λ (c : Bool). (if c then cleared else answered).terminal_output) e))
            (record { long = omega arith; prompt = refl })
      | inr e ↦
          subst Prompts
            (sym (ap (λ (c : Bool). (if c then cleared else answered).terminal_output) e))
            (append-Prompts (s.terminal_output ++ (qt.trimmed (b ∷ command) ++ literal "\n"))
              (response-Prompts (qt.trimmed (b ∷ command))))
    ]
  where
    before : Session
    before = record s {
      terminal_output = s.terminal_output ++ (qt.trimmed (b ∷ command) ++ literal "\n");
    }

    cleared : Session
    cleared = clear_terminal before

    answered : Session
    answered =
        let output = before.terminal_output ++ response (qt.trimmed (b ∷ command)) in
        put (terminal_output_received (qt.trimmed (b ∷ command)))
          (put (terminal_output_changed output) (record before { terminal_output = output }))
