-- ===== src/Session/Progress.antt =====
-- rcn/webrtc/ice.go: the status after the callbacks of the agent.
use runetale.Common.{
  ℕ, String, ◌≡◌, refl, inl, inr, false, none, some, List, [], ◌∷◌, Option-cases, ok,
}
use runetale.Status.Defs.{
  connect, dis_connect, ConnectState, close_channel, connected, dis_connected,
}
use runetale.Session.Signal.{
  ConnectionState, new_state, checking, agent_connected, completed, agent_failed, disconnected,
  closed_state, ice_connection_has_been_changed, state_changes,
}

-- The status that the last of the changes leaves, where `before` was the status.
unfoldable pub last_status : String → List ConnectionState → String
last_status before [] = before
last_status before (completed ∷ xs) = last_status connect xs
last_status before (agent_failed ∷ xs) = last_status dis_connect xs
last_status before (disconnected ∷ xs) = last_status dis_connect xs
last_status before (new_state ∷ xs) = last_status before xs
last_status before (checking ∷ xs) = last_status before xs
last_status before (agent_connected ∷ xs) = last_status before xs
last_status before (closed_state ∷ xs) = last_status before xs

-- If the channel that goroutines wait on, where there is one, is open, then the callbacks of the
-- agent never panic, and afterwards the status is CONNECT if the last change to completed, failed or
-- disconnected was to completed, DISCONNECT if it was another of these, and as before if there was
-- none.
pub state_changes-last_status :
    (xs : List ConnectionState) (c : ConnectState)
    → ((ch : ℕ) → c.conn ≡ some ch → c.closed ch ≡ false)
    → let (res, c') = state_changes xs c in (res ≡ ok tt) × (c'.state ≡ last_status c.state xs)
unfolding state_changes last_status ice_connection_has_been_changed dis_connected connected
state_changes-last_status [] c h = (refl, refl)
state_changes-last_status (completed ∷ xs) c h = elim (Option-cases c.conn) [
  | inl nil ↦
      rw nil (state_changes-last_status xs (record c { state = connect; conn = none }) (λ ch e. cc))
  | inr (ch, is) ↦
      rw (is, h ch is)
        (state_changes-last_status xs
          (record c { state = connect; conn = none; closed = close_channel ch c.closed })
          (λ k e. cc))
]
state_changes-last_status (agent_failed ∷ xs) c h =
    state_changes-last_status xs (record c { state = dis_connect }) h
state_changes-last_status (disconnected ∷ xs) c h =
    state_changes-last_status xs (record c { state = dis_connect }) h
state_changes-last_status (new_state ∷ xs) c h = state_changes-last_status xs c h
state_changes-last_status (checking ∷ xs) c h = state_changes-last_status xs c h
state_changes-last_status (agent_connected ∷ xs) c h = state_changes-last_status xs c h
state_changes-last_status (closed_state ∷ xs) c h = state_changes-last_status xs c h
