-- ===== src/Errors.antt =====
-- The exceptions of the packages, from `scripts/ubb_registry/errors.py`,
-- `scripts/ubb_supervisor/errors.py`, `scripts/ubb_router/errors.py` and the modules that declare their
-- own. A message is a text of the source that the code never reads back, so a constructor carries only
-- the names that it quotes.
use ultimate_bbsbox.Prelude.{String}

pub data Error : Type 0 where
  -- ubb_registry
  unknown_reference duplicate_id unsupported_endpoint_type : String → Error
  invalid_manifest : Error
  -- ubb_supervisor
  invalid_transition service_not_found service_busy : Error
  readiness_timeout restart_limit_exceeded unknown_session : Error
  maintenance_error invalid_schedule duplicate_job invalid_mode : Error
  driver_error : String → Error
  -- Python's RecursionError, and a readiness loop that the clock never ends
  recursion_limit endless_wait : Error
  -- Python's OverflowError of a date past the year 9999
  overflow_error : Error
  -- ubb_router
  authorization_error unknown_service_error invalid_session_transition : Error
  session_not_found session_busy duplicate_session cleanup_failed : Error
  -- Python's OSError, and the AttributeError of a method called on None
  os_error attribute_error : Error
  unsupported_transport : String → Error
  transport_error : Error
  -- Python's PermissionError, of ubb_admin
  permission_error : Error
  -- ubb_archive
  archive_error duplicate_artifact verification_error : Error
  -- ubb_edge, ubb_network, ubb_network_hardening
  edge_config_error network_config_error network_hardening_error : Error
  -- ubb_mail, ubb_ftn, and the ValueError of ubb_monitoring
  mail_config_error ftn_config_error value_error : Error
