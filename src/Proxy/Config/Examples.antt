-- ===== src/Proxy/Config/Examples.antt =====
-- proxy/config.go on the default configuration: tests, and an instance of the round trip.
use rtsp_go.Base.{◌/◌, ◌^◌, ◌≡◌, refl, ok, arith}
use rtsp_go.Base.Int.{ℤ, pos, negsuc, ltz}
use rtsp_go.Base.Text.{is_empty}
use rtsp_go.Proxy.Config.{
  default_config, load_config, save_config, load_config-save_config, validate_config,
}

abbrev whole_seconds : ℤ → ℤ
whole_seconds (pos n) = pos (n / 10 ^ 9)
whole_seconds (negsuc n) = pos 0

default_is_valid : validate_config default_config ≡ ok tt
unfolding validate_config default_config is_empty ltz
default_is_valid = refl

-- The default configuration is what a file of it gives back.
default_again : load_config (save_config whole_seconds default_config) ≡ default_config
unfolding default_config
default_again = load_config-save_config whole_seconds default_config 30 refl (omega arith) refl
