-- ===== src/Wired/Channels.antt =====
-- tokio's unbounded channel, as wiring/src/core/wired.rs uses it: the messages that wait, and whether each end is
-- still held.
use wiring.Base.{
  ℕ, ◌≡◌, refl, Bool, true, false, Option, none, some, List, [], ◌∷◌, ◌++◌, arith, ◌==◌,
  if◌then◌else◌,
}

pub record Channel : Type 0 where
  pub messages : List (List ℕ)
  pub has_receiver : Bool
  pub has_sender : Bool

abbrev pub unbounded_channel : Channel
unbounded_channel = record { messages = []; has_receiver = true; has_sender = true }

-- `tx.send(message).ok()`: without a receiver the message is lost.
abbrev pub push : List ℕ → Channel → Channel
push message c = if c.has_receiver then record c { messages = c.messages ++ (message ∷ []) } else c

abbrev pub try_recv : Channel → Option (List ℕ × Channel)
try_recv c = elim c.messages [ [] ↦ none | m ∷ ms ↦ some (m, record c { messages = ms }) ]

abbrev pub drop_receiver : Channel → Channel
drop_receiver c = record c { messages = []; has_receiver = false }

abbrev pub drop_sender : Channel → Channel
drop_sender c = record c { has_sender = false }

abbrev pub update {ℓ} : {A : Type ℓ} → (ℕ → A) → ℕ → A → ℕ → A
update f i a j = if i == j then a else f j

pub update_same {ℓ} : {A : Type ℓ} (f : ℕ → A) (i : ℕ) (a : A) → update f i a i ≡ a
update_same f i a = let e : (i == i) ≡ true = ground arith in rw e refl
