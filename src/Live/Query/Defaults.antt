-- ===== src/Live/Query/Defaults.antt =====
-- The parameter lists of src/web_defaults.cpp.
use ttlive_cpp.Prelude.{List, [], ◌∷◌, codes}
use ttlive_cpp.Js.Text.{Text}

abbrev pub base_web_params : List (Text × Text)
base_web_params =
    (codes "aid", codes "1988")
    ∷ (codes "app_language", codes "en-US")
    ∷ (codes "app_name", codes "tiktok_web")
    ∷ (codes "browser_language", codes "en-US")
    ∷ (codes "browser_name", codes "Mozilla")
    ∷ (codes "browser_online", codes "true")
    ∷ (codes "browser_platform", codes "Win32")
    ∷ (
      codes "browser_version",
      codes
          "5.0 (Windows NT 10.0; Win64; x64) AppleWebKit/537.36 (KHTML, like Gecko) Chrome/126.0.0.0 Safari/537.36",
    )
    ∷ (codes "cookie_enabled", codes "true")
    ∷ (codes "device_platform", codes "web_pc")
    ∷ (codes "focus_state", codes "true")
    ∷ (codes "from_page", codes "user")
    ∷ (codes "history_len", codes "4")
    ∷ (codes "is_fullscreen", codes "false")
    ∷ (codes "is_page_visible", codes "true")
    ∷ (codes "screen_height", codes "1080")
    ∷ (codes "screen_width", codes "1920")
    ∷ (codes "tz_name", codes "America/New_York")
    ∷ (codes "channel", codes "tiktok_web")
    ∷ (codes "data_collection_enabled", codes "true")
    ∷ (codes "os", codes "windows")
    ∷ (codes "priority_region", codes "US")
    ∷ (codes "region", codes "US")
    ∷ (codes "user_is_login", codes "false")
    ∷ (codes "webcast_language", codes "en-US")
    ∷ []

abbrev pub base_ws_params : List (Text × Text)
base_ws_params =
    (codes "version_code", codes "270000")
    ∷ (codes "device_platform", codes "web")
    ∷ (codes "cookie_enabled", codes "true")
    ∷ (codes "app_name", codes "tiktok_web")
    ∷ (codes "aid", codes "1988")
    ∷ (codes "live_id", codes "12")
    ∷ (codes "identity", codes "audience")
    ∷ (codes "sup_ws_ds_opt", codes "1")
    ∷ (codes "ws_direct", codes "1")
    ∷ (codes "resp_content_type", codes "protobuf")
    ∷ (codes "did_rule", codes "3")
    ∷ (codes "heartbeat_duration", codes "10000")
    ∷ (codes "last_rtt", codes "0")
    ∷ (codes "app_language", codes "en")
    ∷ (codes "webcast_language", codes "en")
    ∷ (codes "client_enter", codes "1")
    ∷ (codes "update_version_code", codes "2.0.0")
    ∷ (codes "browser_name", codes "Mozilla")
    ∷ (codes "browser_online", codes "true")
    ∷ []
