-- ===== src/Auth.antt =====
-- auth/tokens.py: which way of acquiring Entra tokens the settings select.
use lantern_task_manager.Base.{
  ◌≡◌, Bool, true, false, ◌&&◌, ◌||◌, ◌==◌, if◌then◌else◌, truthy, strip, lower, arith,
}
use lantern_task_manager.Config.{Settings}

pub data AuthMode : Type 0 where
  msi client_secret none : AuthMode

unfoldable pub uses_managed_identity : Settings → Bool
uses_managed_identity settings = lower (strip settings.bot_type) == "userassignedmsi"

unfoldable pub auth_mode : Settings → AuthMode
auth_mode settings =
    if uses_managed_identity settings
    then msi
    else if truthy settings.client_id && truthy settings.client_secret
    then client_secret
    else AuthMode.none

unfoldable pub bot_connector_configured : Settings → Bool
bot_connector_configured settings =
    if truthy settings.client_id
    then uses_managed_identity settings || truthy settings.client_secret
    else false

unfoldable pub graph_configured : Settings → Bool
graph_configured settings =
    if truthy settings.client_id
    then if uses_managed_identity settings
      then true
      else truthy settings.client_secret && truthy settings.tenant_id
    else false

-- Where Graph is configured so is the Bot Connector, and the authentication mode is the managed
-- identity if the bot type says so and the client secret otherwise.
configured_modes :
    (settings : Settings)
    → graph_configured settings ≡ true
    → (bot_connector_configured settings ≡ true)
      × (auth_mode settings ≡ (if uses_managed_identity settings then msi else client_secret))
unfolding graph_configured bot_connector_configured auth_mode
configured_modes settings h = ground arith
