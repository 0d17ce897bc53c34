-- ===== src/Client/Tests.antt =====
-- The client's theorems at concrete inputs.
use f2p.Prelude.{◌≡◌, refl, ◌⊎◌, true, false, ◌||◌, [], ◌∷◌, none, some, str_eq}
use f2p.Prelude.Maps.{delete}
use f2p.Message.{service_request_message, auth_request_message}
use f2p.Config.{Config, ServiceConfig, of_parts}
use f2p.Config.Passwords.{Bcrypt}
use f2p.Config.Saving.{no_client}
use f2p.Config.Setup.{create_default_common_config}
use f2p.Version.{data_protocol}
use f2p.Client.Streams.{Opened, libp2p_stream, proxies, handle_local_conn_for_protocol}
use f2p.Client.Streams.Routed.{IsReadAs, proxied_compression}
use f2p.Server.{will_compress, answer_message, new_registry, validate_service_request}
use f2p.Server.Auth.{accepts, password_is_required}
use f2p.Client.{Client, verified, verify_service, logged_in, rejected}
use f2p.Client.Verified.{Granted, verify_service-Granted}
use f2p.Client.Login.{login, login-accepts}

abbrev new_client : Client
new_client = record {
  service_compress = [];
  cached_server_password = "old";
  has_cached_server_password = true;
  backoff = 1_000_000_000;
  backoff_max = 60_000_000_000;
}

abbrev web : ServiceConfig
web = record {
  name = "web";
  target = "127.0.0.1:80";
  password = "";
  protocol = "tcp" ∷ [];
  enabled = true;
  compress = some false;
}

abbrev my_server : Config
my_server =
    of_parts true (record { private_key = "k"; peer_id = "p" })
      (record { password_hash = "$2a$"; compress = true; services = web ∷ [] }) no_client
      create_default_common_config

abbrev verified_client : Client
verified_client = record new_client { service_compress = ("web", false) ∷ [] }

verified_web :
    verify_service "web" true
      (some (
        answer_message (
          validate_service_request my_server
            (new_registry my_server)
            (service_request_message "web" "tcp" ""))))
      new_client
    ≡ verified verified_client
unfolding verify_service answer_message validate_service_request new_registry delete
verified_web = refl

abbrev plain : Bcrypt
plain = record { generate = λ password. "$2a$"; compare = λ stored other. str_eq other "secret" }

login-accepts_example :
    ((accepts plain my_server (auth_request_message "wrong") ≡ true)
      × ((login plain my_server "wrong" new_client).1 ≡ logged_in)
      × ((login plain my_server "wrong" new_client).0.has_cached_server_password
          ≡ (password_is_required my_server || new_client.has_cached_server_password)))
    ⊎ ((accepts plain my_server (auth_request_message "wrong") ≡ false)
        × ((login plain my_server "wrong" new_client).1 ≡ rejected)
        × ((login plain my_server "wrong" new_client).0.has_cached_server_password ≡ false))
login-accepts_example = login-accepts plain my_server "wrong" new_client

granted : Granted my_server (service_request_message "web" "tcp" "") "web" verified_client
granted =
    verify_service-Granted my_server "web" "tcp" "" true new_client verified_client verified_web

abbrev data_stream : Opened
data_stream = libp2p_stream (data_protocol [])

proxies_web :
    handle_local_conn_for_protocol verified_client none [] "web" true true true true
    ≡ proxies false data_stream
unfolding handle_local_conn_for_protocol
proxies_web = refl

proxied_compression_example :
    (false ≡ will_compress my_server granted.service) × IsReadAs false data_stream
proxied_compression_example =
    proxied_compression my_server (service_request_message "web" "tcp" "") "web" verified_client
      granted none [] true true true true false data_stream proxies_web
