-- ===== src/Model/EventKind.antt =====
-- `EventKind` of src/ddsleuth/models.py: the event kinds and the texts that stand for them.
use ddsleuth.Prelude.{String}

pub data EventKind : Type 0 where
  probe_ready : EventKind
  observer_error : EventKind
  access_control_decision : EventKind
  crypto_token_generated : EventKind
  crypto_token_observed : EventKind
  key_material_observed : EventKind
  authority_revoked : EventKind
  key_rotated : EventKind
  endpoint_pair_observed : EventKind
  decrypt_capability : EventKind
  forge_capability : EventKind
  packet_sent : EventKind
  protected_message_accepted : EventKind
  endpoint_matched : EventKind
  endpoint_created : EventKind
  endpoint_destroyed : EventKind
  endpoint_recreated : EventKind
  participant_disconnected : EventKind
  participant_reconnected : EventKind
  credential_authenticated : EventKind
  credential_revoked : EventKind
  transport_fault_armed : EventKind
  transport_datagram_dropped : EventKind
  transport_datagram_delayed : EventKind
  transport_datagram_duplicated : EventKind
  transport_datagram_captured : EventKind
  transport_datagram_replayed : EventKind
  application_write_attempt : EventKind
  application_sample_written : EventKind
  application_sample_received : EventKind
  application_observation_window : EventKind
  memory_safety_violation : EventKind
  action_started : EventKind
  action_delegated : EventKind
  action_completed : EventKind
  execution_divergence : EventKind
  process_exit : EventKind

abbrev pub value : EventKind → String
value probe_ready = "probe.ready"
value observer_error = "probe.observer_error"
value access_control_decision = "access_control.decision"
value crypto_token_generated = "crypto_token.generated"
value crypto_token_observed = "crypto_token.observed"
value key_material_observed = "key_material.observed"
value authority_revoked = "authorization.revoked"
value key_rotated = "key.rotated"
value endpoint_pair_observed = "endpoint_pair.observed"
value decrypt_capability = "capability.decrypt"
value forge_capability = "capability.forge"
value packet_sent = "network.packet_sent"
value protected_message_accepted = "crypto.protected_message_accepted"
value endpoint_matched = "endpoint.matched"
value endpoint_created = "endpoint.created"
value endpoint_destroyed = "endpoint.destroyed"
value endpoint_recreated = "endpoint.recreated"
value participant_disconnected = "participant.disconnected"
value participant_reconnected = "participant.reconnected"
value credential_authenticated = "credential.authenticated"
value credential_revoked = "credential.revoked"
value transport_fault_armed = "transport.fault_armed"
value transport_datagram_dropped = "transport.datagram_dropped"
value transport_datagram_delayed = "transport.datagram_delayed"
value transport_datagram_duplicated = "transport.datagram_duplicated"
value transport_datagram_captured = "transport.datagram_captured"
value transport_datagram_replayed = "transport.datagram_replayed"
value application_write_attempt = "application.write_attempt"
value application_sample_written = "application.sample_written"
value application_sample_received = "application.sample_received"
value application_observation_window = "application.observation_window"
value memory_safety_violation = "memory_safety.violation"
value action_started = "action.started"
value action_delegated = "action.delegated"
value action_completed = "action.completed"
value execution_divergence = "execution.divergence"
value process_exit = "process.exit"
