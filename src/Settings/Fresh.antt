-- ===== src/Settings/Fresh.antt =====
-- An update reaches every process within the time to live of its cache.
use agentic_rag_backend.Base.{
  ℕ, ◌+◌, ◌≤◌, ◌≡◌, ◌⊎◌, refl, sym, ◌∙◌, ap, true, false, none, some, arith, Option-cases, inl, inr,
}
use agentic_rag_backend.Settings.{
  AgentConfig, Fields, row_to_config, patched, row_or, SettingsTable, SettingsLaws, Cache, is_fresh,
  config_read, get_config, update_config,
}

-- A cache that is as old as its time to live is not used.
old-is_fresh :
    (ttl later : ℕ) (cache : Cache)
    → cache.cache_at + ttl ≤ later
    → is_fresh ttl false later cache ≡ false
unfolding is_fresh
old-is_fresh ttl later cache h = elim (Option-cases cache.config) [
  | inl e ↦ rw e refl
  | inr (config, e) ↦ rw e (ground arith)
]

module _ (t : SettingsTable) (laws : SettingsLaws t) (ttl : ℕ) where
  -- After an update, the configuration that another process reads from then on, once the time to
  -- live of its cache has passed, is that of the patched row, unless the reading fails.
  pub update_config-get_config :
      (now : ℕ) (patch : Fields) (db db' : t.Store) (cache cache' : Cache) (config : AgentConfig)
      (other : Cache) (later : ℕ)
      → update_config t ttl true now patch db cache ≡ some (config, db', cache')
      → other.cache_at ≤ now
      → now + ttl ≤ later
      → ((get_config t ttl true false later db' other).0
          ≡ row_to_config (patched patch (row_or t.new_row (t.row_at db))))
        ⊎ (t.select db' ≡ none)
  unfolding update_config get_config config_read
  update_config-get_config now patch db db' cache cache' config other later e before after =
      elim (Option-cases (t.upsert patch db)) [
        | inl refused_patch ↦ absurd (cc (rw refused_patch at e))
        | inr (s, wrote) ↦
            let same : s ≡ db' = cc (rw (wrote, update_config) at e) in
            elim (Option-cases (t.select db')) [
              | inl down ↦ inr down
              | inr (row, read) ↦
                  let stale = old-is_fresh ttl later other (omega arith) in
                  let row_is =
                    laws.select_lem db' read
                    ∙ ap t.row_at (sym same)
                    ∙ laws.row_at-upsert patch db wrote in
                  inl (rw (stale, read, row_is) refl)
            ]
      ]
