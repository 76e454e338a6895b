-- ===== src/Wired/Server.antt =====
-- wiring/src/core/wired.rs: `WiredServer`, the handle that `run` gives, and the end of the two tasks. A handle sends on
-- the inbox of its node; what is done to the tasks is a list of acts.
use wiring.Base.{
  some, Result, Option, Bool, List, none, true, ◌∷◌, ◌++◌, [], err, false, ok, undefined, panic,
}
use wiring.Wired.{Node}
use wiring.Wired.Halves.{new_node, handle_send}

pub data TaskAct : Type 0 where
  abort_wired abort_unwired wait_wired wait_unwired : TaskAct

-- Whether each of the two join handles is still there.
pub record DropHandles : Type 0 where
  pub wired : Bool
  pub unwired : Bool

pub record WiredHandle : Type 0 where
  pub drophandles : Option DropHandles

abbrev act_if : Bool → TaskAct → List TaskAct
act_if true act = act ∷ []
act_if false act = []

-- `Drop` of `DropHandles`.
unfoldable pub drop_drophandles : DropHandles → List TaskAct
drop_drophandles d = act_if d.wired abort_wired ++ act_if d.unwired abort_unwired

-- `DropHandles::abort`: what is left of it is dropped with both handles taken.
pub abort : DropHandles → List TaskAct
unfolding drop_drophandles
abort d =
    act_if d.wired abort_wired
    ++ (act_if d.unwired abort_unwired
        ++ (act_if d.wired wait_wired
            ++ (act_if d.unwired wait_unwired
                ++ drop_drophandles (record { wired = false; unwired = false }))))

-- The drop of a handle.
unfoldable pub drop_wired_handle : WiredHandle → List TaskAct
unfolding drop_drophandles
drop_wired_handle h = elim h.drophandles [ none ↦ [] | some d ↦ drop_drophandles d ]

unfoldable pub clone_handle : WiredHandle → WiredHandle
clone_handle h = record { drophandles = none }

-- `WiredServer::new`, with the outcome of `split`, and `run`.
pub new_server : {T Read Write : Type 0} → Result (Read × Write) → Result (Read × Write × Node T)
new_server undefined = undefined
new_server panic = panic
new_server (err kind) = err kind
new_server (ok (unwire, wire)) = ok (unwire, wire, new_node)

unfoldable pub run_server : WiredHandle
run_server = record { drophandles = some (record { wired = true; unwired = true }) }

-- `WiredHandle::shutdown`: the acts in their order, and the answer.
unfoldable pub shutdown :
    {T : Type 0} → WiredHandle → Node T → List TaskAct × Option (Unit {0}) × Node T
unfolding handle_send drop_drophandles
shutdown h n =
    let sent = (handle_send none n).1 in
    elim h.drophandles [
      | none ↦ ([], none, sent)
      | some d ↦ (
        act_if d.wired wait_wired
            ++ (act_if d.unwired wait_unwired
                ++ drop_drophandles (record { wired = false; unwired = false })),
        some tt,
        sent,
      )
    ]
