-- ===== src/Tests/Starting.antt =====
-- Examples of the start of the service, of its end, and of the mail.
use ai_inference_platform.Prelude.{
  Bool, ℕ, zero, suc, ◌+◌, ◌≤◌, ◌≡◌, refl, true, false, Option, some, List, [], ◌∷◌, Text, text,
  arith,
}
use ai_inference_platform.Errors.{value_error}
use ai_inference_platform.Models.{Org, empty_db}
use ai_inference_platform.Orgs.{new_org}
use ai_inference_platform.Admission.Bound.{Server}
use ai_inference_platform.Startup.{Store, current, migrate, SuperAdmin}
use ai_inference_platform.Startup.Loss.{migrate_loses_conversations}
use ai_inference_platform.Startup.Drain.{drain, drain_ends}
use ai_inference_platform.Email.{
  MailSettings, Answer, mx, other_answer, Attempt, taken, raised, choose_provider, send_code,
}
use ai_inference_platform.Email.Delivery.{IsHandled, send_code-IsHandled}

abbrev store : Store
store = record {
  schema = record { otps = current; conversations = current; chat_messages = current };
  db = empty_db;
}

migrate_loses_conversations_example :
    (migrate false true true store).db
    ≡ record store.db { otps = []; conversations = []; messages = [] }
migrate_loses_conversations_example = migrate_loses_conversations store

abbrev root : SuperAdmin
root = record { email = text "root@x.com"; password = text "pw" }

abbrev default_org : Org
default_org = new_org 1 (text "Default") (text "default")

abbrev busy : Server
busy = record { slots = record { value = 0; waiters = 0; active = 2; gauge = 2 }; inside = 2 }

drain_ends_example : (k : ℕ) × (drain 3 (λ n. 1) 0 busy ≡ some k) × (k ≤ 0 + 2)
drain_ends_example =
    drain_ends 3 (λ n. 1) 0 2 busy
      (record { permits = omega arith; active = refl; gauge = refl; waiters = refl })
      (λ k. omega arith) (omega arith)

abbrev answers : List Answer
answers = mx 20 (text "b.x.com.") ∷ other_answer ∷ mx 10 (text "a.x.com.") ∷ []

abbrev resolve : Text → Option (List Answer)
resolve domain = some answers

abbrev local_mail : MailSettings
local_mail = record {
  resend_api_key = [];
  smtp_host = text "mailpit";
  smtp_port = 1025;
  debug = false;
}

abbrev second_attempt : ℕ → Attempt
second_attempt zero = raised value_error
second_attempt (suc n) = taken

send_code-IsHandled_example :
    IsHandled
      (choose_provider resolve local_mail (text "a@x.com"))
      second_attempt
      (send_code resolve local_mail (text "a@x.com") second_attempt)
send_code-IsHandled_example = send_code-IsHandled resolve local_mail (text "a@x.com") second_attempt

abbrev from_third : ℕ → Bool
from_third zero = false
from_third (suc zero) = false
from_third (suc (suc n)) = true

abbrev present : List Text
present = text "llama3.2:latest" ∷ []
