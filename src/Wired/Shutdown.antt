-- ===== src/Wired/Shutdown.antt =====
-- wiring/src/core/wired.rs: shutting a server down.
use wiring.Base.{
  ℕ, ◌≡◌, none, true, ◌∷◌, ◌++◌, [], false, refl, length, ◌<◌, ◌≤◌, Option-cases, inl, inr,
}
use wiring.Wired.{Node}
use wiring.Wired.Ending.{Rounds, wired-ends}
use wiring.Wired.Halves.{handle_send}
use wiring.Wired.Server.{
  shutdown, run_server, clone_handle, wait_wired, WiredHandle, wait_unwired, drop_drophandles,
}

module _ {T : Type 0} where
  pub told :
      (h : WiredHandle) (n : Node T)
      → n.inbox_open ≡ true
      → (shutdown h n).2.inbox ≡ n.inbox ++ (none ∷ [])
  unfolding shutdown handle_send
  told h n is_open = elim (Option-cases h.drophandles) [
    | inl e ↦ rw (e, is_open) refl
    | inr e ↦ rw (e.1, is_open) refl
  ]

  -- After shutdown of a handle whose inbox is open, whatever the other tasks and handles send
  -- meanwhile, the inbox is closed once Wired::run has had more rounds than there were events, and
  -- it is empty, which ends the task, once it has had as many more as there are events then. The
  -- handle of run waits for both tasks, a clone for none.
  pub shutdown-ends :
      {k k' : ℕ} {m p : Node T} (h : WiredHandle) (n : Node T)
      → n.inbox_open ≡ true
      → Rounds k (shutdown h n).2 m
      → length n.inbox < k
      → Rounds k' m p
      → length m.inbox ≤ k'
      → (p.inbox ≡ [])
        × (p.inbox_open ≡ false)
        × ((shutdown run_server n).0 ≡ wait_wired ∷ (wait_unwired ∷ []))
        × ((shutdown (clone_handle run_server) n).0 ≡ [])
  unfolding shutdown run_server clone_handle drop_drophandles
  shutdown-ends h n is_open r long r' all =
      let (empty, shut) = wired-ends n.inbox [] (told h n is_open) r long r' all in
      (empty, shut, refl, refl)
