-- ===== src/Tests/Configured.antt =====
-- The settings over a table that is one optional row, and their theorem at an update.
use agentic_rag_backend.Base.{◌≡◌, ◌⊎◌, refl, sym, true, false, Option, none, some, arith}
use agentic_rag_backend.Base.Text.{codes}
use agentic_rag_backend.Settings.{
  AgentConfig, Fields, row_to_config, patched, row_or, SettingsTable, SettingsLaws, Cache,
  default_agent_config, get_config, update_config,
}
use agentic_rag_backend.Settings.Fresh.{update_config-get_config}

abbrev empty_row : Fields
empty_row = record {
  assistant_name = none;
  system_prompt = none;
  scope_description = none;
  enforce_scope = some true;
  out_of_scope_message = none;
}

abbrev settings : SettingsTable
settings = record {
  Store = Option Fields;
  row_at = λ s. s;
  select = λ s. some s;
  upsert = λ patch s. some (some (patched patch (row_or empty_row s)));
  new_row = empty_row;
}

settings-laws : SettingsLaws settings
settings-laws = record {
  select_lem = λ s e. cc;
  row_at-upsert =
      λ patch s {s'} e. let same : some (patched patch (row_or empty_row s)) ≡ s' = cc in sym same;
}

abbrev patch : Fields
patch = record {
  assistant_name = some (codes "Ada");
  system_prompt = none;
  scope_description = none;
  enforce_scope = some false;
  out_of_scope_message = none;
}

abbrev no_cache : Cache
no_cache = record { config = none; cache_at = 0 }

-- The cache of another process, which holds the defaults.
abbrev other : Cache
other = record { config = some default_agent_config; cache_at = 90 }

abbrev new_config : AgentConfig
new_config = row_to_config (patched patch empty_row)

update_config-get_config_example :
    ((get_config settings 30 true false 140 (some (patched patch empty_row)) other).0 ≡ new_config)
    ⊎ (settings.select (some (patched patch empty_row)) ≡ none)
unfolding update_config row_to_config get_config agentic_rag_backend.Settings.is_fresh
    agentic_rag_backend.Settings.config_read
update_config-get_config_example =
    update_config-get_config settings settings-laws 30 100 patch none
      (some (patched patch empty_row)) no_cache
      (record { config = some new_config; cache_at = 100 }) new_config other 140 refl (omega arith)
      (omega arith)

-- Ten units later the other process still serves the defaults.
stale_run :
    (get_config settings 30 true false 110 (some (patched patch empty_row)) other).0
    ≡ default_agent_config
unfolding get_config agentic_rag_backend.Settings.is_fresh
stale_run = refl
