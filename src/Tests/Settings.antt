-- ===== src/Tests/Settings.antt =====
-- agentserve/settings.py and the app that it configures, on three environments.
use agentserve.App.Serving.{Call, AllAnswered, post_all, app_answers}
use agentserve.App.{create_app, over_memory, simulator}
use agentserve.Common.Float.{Float, thousandths}
use agentserve.Common.Int.{ℤ, pos}
use agentserve.Common.{◌≡◌, refl, none, some, List, [], ◌∷◌, str_eq, if◌then◌else◌}
use agentserve.Gateway.{Gateway}
use agentserve.Result.{ok}
use agentserve.Settings.{
  Cast, Environ, Settings, LoadedSettings, default_settings, loaded, load_settings,
  round_robin_router,
}
use agentserve.State.Memory.{InMemorySessionStore}
use agentserve.Tests.Outages.{no_server}
use agentserve.Tests.Serving.{request}

-- The texts of numbers that the environments hold.
abbrev int_of : Cast ℤ
int_of raw = if str_eq raw "8" then some (pos 8) else none

abbrev float_of : Cast Float
float_of raw =
    if str_eq raw "nan"
    then some Float.nan
    else if str_eq raw "inf"
    then some Float.infinity
    else if str_eq raw "0.5"
    then some (thousandths 500)
    else none

-- A key, eight replicas, and floats of each kind.
abbrev odd : Environ
odd name =
    if str_eq name "AGENTSERVE_ROUTER"
    then some " Round-Robin"
    else if str_eq name "AGENTSERVE_REPLICAS"
    then some "8"
    else if str_eq name "AGENTSERVE_PIN_THRESHOLD_MS"
    then some "nan"
    else if str_eq name "AGENTSERVE_SESSION_TTL_S"
    then some "inf"
    else if str_eq name "AGENTSERVE_EWMA_ALPHA"
    then some "0.5"
    else none

abbrev odd_defaults : LoadedSettings
odd_defaults = loaded default_settings

abbrev odd_settings : LoadedSettings
odd_settings = record odd_defaults {
  router = round_robin_router;
  session_ttl_s = Float.infinity;
  cluster = record odd_defaults.cluster {
    replicas = 8;
    policy = record odd_defaults.cluster.policy { pin_threshold_ms = Float.nan };
    predictor = record odd_defaults.cluster.predictor { ewma_alpha = thousandths 500 };
  };
}

-- An app with a key.
abbrev keyed : Environ
keyed name = if str_eq name "AGENTSERVE_API_KEY" then some "k" else none

abbrev keyed_settings : Settings
keyed_settings = record default_settings { api_key = some "k" }

keyed_result : load_settings int_of float_of keyed ≡ ok (loaded keyed_settings)
unfolding load_settings
keyed_result = refl

-- One with the key, one without it, and one with the key that names no session.
abbrev calls : List Call
calls =
    record {
      authorization = some "Bearer k";
      request = request;
      now_ms = 30;
      read_at = 5;
      write_at = 6;
    }
    ∷ record { authorization = none; request = request; now_ms = 40; read_at = 7; write_at = 8 }
    ∷ record {
      authorization = some "Bearer k";
      request = record request { session_id = none };
      now_ms = 50;
      read_at = 9;
      write_at = 10;
    }
    ∷ []

app_answers_example :
    (g : Gateway InMemorySessionStore) × (create_app no_server keyed_settings
      ≡ ok (record {
        gateway = over_memory g;
        backend = simulator keyed_settings.cluster.hardware;
        api_key = some "k";
      }))
    × AllAnswered
        (some "k")
        calls
        (post_all keyed_settings.cluster.hardware none (some "k") g calls)
app_answers_example =
    app_answers int_of float_of keyed keyed_settings no_server none calls keyed_result refl refl
