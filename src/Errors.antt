-- ===== src/Errors.antt =====
-- services/errors.py and the messages of runtime_pin_registry.py, runtime_execution_registry.py,
-- runtime_execution_identity.py and pinned_runtime_release.py: one constructor for each message.
-- `RuntimePinRegistryError` and `RuntimeExecutionRegistryError` are subclasses of
-- `DeploymentContractError`, and no handler of these modules tells them apart on a value that
-- the model can produce, so they are one type here.
use kor_travel_docker_manage.Common.{String}

pub data Error : Type 0 where
  -- the field checks, with the field's name
  not_text text_is_empty text_too_long not_single_line text_invalid : String → Error
  not_revision not_digest not_timestamp : String → Error
  -- pinned_runtime_release.py
  source_role_invalid source_url_differs source_revision_invalid : Error
  -- runtime_pin_registry.py: documents
  blocked_not_object blocked_unknown_fields blocked_digest_differs : Error
  history_entry_not_object history_unknown_fields : Error
  unsupported_version history_too_long blocked_too_long pinset_digest_differs : Error
  document_not_object document_unknown_fields schema_unsupported version_not_integer : Error
  history_not_list blocked_not_list : Error
  sources_not_pair source_not_object source_fields_differ source_url_not_canonical : Error
  -- runtime_pin_registry.py: operations
  rotation_changes_nothing rotation_target_blocked role_unknown : Error
  pair_rotation_required block_needs_revisions : Error
  rollback_to_current rollback_target_blocked preserved_digest_differs : Error
  -- runtime_pin_registry.py: files
  file_missing file_unreadable file_uninspectable file_not_regular : Error
  file_owner_unexpected file_writable_by_others file_too_large file_not_json : Error
  targets_not_local inside_install_root packaged_seed write_failed publish_failed : Error
  -- runtime_execution_identity.py
  identity_pinset_invalid identity_manager_invalid identity_digest_invalid : Error
  identity_digest_differs : Error
  -- runtime_execution_registry.py
  binding_identity_differs blocked_identity_differs lifecycle_too_long : Error
  history_not_at_current binding_fields_invalid blocked_fields_invalid : Error
  execution_document_invalid execution_schema_unsupported lifecycle_not_lists : Error
  rebind_source_differs binding_unchanged : Error
  -- runtime_execution_registry.py: files and the revision of the installed Manager
  execution_directory_unsafe execution_file_unsafe execution_file_unreadable : Error
  execution_document_not_object execution_write_failed : Error
  install_root_uninspectable install_root_unsafe : Error
  provenance_unsafe provenance_unopened provenance_changed : Error
  provenance_too_large provenance_not_text : Error
  -- runtime_pair_rotation.py
  pair_binding_differs pair_revisions_differ pair_malformed : Error
  pair_schema_unsupported pair_timestamp_invalid pair_target_invalid : Error
  intent_unsafe intent_directory_unsafe intent_unreadable : Error
  intent_write_failed intent_not_cleared : Error
  rotation_incomplete different_target_pending pair_role_unknown : Error
  terminal_pinset_needs_pair terminal_execution_needs_pair rollback_digest_invalid : Error
