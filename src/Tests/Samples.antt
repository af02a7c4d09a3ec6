-- ===== src/Tests/Samples.antt =====
-- Rows, environments and requests for the examples.
use local_image_generator_se.Common.{ℕ, ◌+◌, String, true, false, none, some, [], ◌∷◌}
use local_image_generator_se.Common.Text.{codes}
use local_image_generator_se.Schema.{
  Database, Job, JobStatus, WebhookDeliveryAttempt, sync, queued, running, completed, delivering,
}
use local_image_generator_se.Webhooks.Policy.{Address, Environment, ParsedUrl}
use local_image_generator_se.Common.Effect.{returned}
use local_image_generator_se.Webhooks.Dispatcher.{response, World}

abbrev pub row : String → ℕ → JobStatus → Job
row k created status = record {
  id = k;
  model_name = "sdxl";
  input_json = "{}";
  mode = sync;
  status = status;
  result_json = none;
  error_code = none;
  error_message = none;
  created_at = created;
  updated_at = created;
  client_id = none;
  prompt_id = none;
  output_keys = [];
  response_delivered = false;
  initial_response_delivered = false;
  webhook_url = some "https://hooks.example/done";
  webhook_headers = none;
  webhook_delivery_status = none;
  webhook_handover = true;
  fetched_at = none;
}

abbrev pub database : Database
database = record {
  jobs = row "a" 3 queued ∷ row "b" 1 running ∷ row "c" 2 completed ∷ [];
  webhook_deliveries = [];
  lora_fetches = [];
}

abbrev pub environment : Environment
environment = record {
  imagegen_env = some (codes "prod");
  webhook_allow_any_host = none;
  webhook_allowed_hosts = some (codes "hooks.example");
  webhook_allow_private = none;
  webhook_signing_secrets = some (codes "s1");
}

abbrev pub address : Address
address = record {
  is_private = false;
  is_loopback = false;
  is_link_local = false;
  is_multicast = false;
  is_reserved = false;
  is_unspecified = false;
}

abbrev pub parsed_url : ParsedUrl
parsed_url = record { scheme = codes "https"; hostname = some (codes "hooks.example") }

-- A receiver that answers every delivery with 503.
abbrev pub world : World
world = record {
  clock = λ n. 1000000 + n;
  environment = environment;
  urlparse = λ u. parsed_url;
  resolve = λ h. some (some address ∷ []);
  codec = record {
    data_items = λ s. [];
    dumps = λ p. codes "{}";
    hmac_hex = λ k m. codes "00";
    digits = λ n. codes "1";
  };
  on_post = λ p. returned (response 503 (codes "busy"));
  attempt_id = "attempt";
  delivery_id = codes "d";
}

-- The fifth attempt of job c, left behind by a process that stopped.
abbrev pub fifth_attempt : WebhookDeliveryAttempt
fifth_attempt = record {
  id = "w5";
  job_id = "c";
  attempt_n = 5;
  status = delivering;
  status_code = none;
  response_body_snippet = none;
  error = none;
  error_code = none;
  next_retry_at = none;
  created_at = 7;
  completed_at = none;
}

abbrev pub exhausted_database : Database
exhausted_database = record database { webhook_deliveries = fifth_attempt ∷ [] }
