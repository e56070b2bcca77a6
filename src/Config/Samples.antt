-- ===== src/Config/Samples.antt =====
-- pkg/config: a configuration with one route to the handler "static".
use fasthttpd.Base.{true, false, [], ◌∷◌, Bytes, codes, pos}
use fasthttpd.Config.Settings.{Settings}

abbrev pub no_settings : Settings Bytes
no_settings = record {
  host = [];
  listen = [];
  ssl = record { cert_file = []; key_file = []; auto_cert = true; auto_cert_cache_dir = [] };
  root = [];
  server = record {
    name = [];
    concurrency = pos 0;
    read_buffer_size = pos 0;
    write_buffer_size = pos 0;
    max_conns_per_ip = pos 0;
    max_requests_per_conn = pos 0;
    max_request_body_size = pos 0;
    read_timeout = pos 0;
    write_timeout = pos 0;
    idle_timeout = pos 0;
    max_idle_worker_duration = pos 0;
    tcp_keepalive_period = pos 0;
    sleep_when_concurrency_limits_exceeded = pos 0;
    disable_keepalive = false;
    tcp_keepalive = false;
    reduce_memory_usage = false;
    disable_pre_parse_multipart_form = false;
    log_all_errors = false;
    secure_error_log_message = false;
    disable_header_names_normalizing = false;
    no_default_server_header = false;
    no_default_date = false;
    no_default_content_type = false;
    close_on_shutdown = false;
    stream_request_body = false;
  };
  log = record {
    output = [];
    prefix = [];
    flags = [];
    rotation = record {
      max_size = pos 0;
      max_backups = pos 0;
      max_age = pos 0;
      compress = false;
      local_time = false;
    };
  };
  access_log = record {
    output = [];
    format = [];
    queue_size = pos 0;
    buffer_size = pos 0;
    flush_interval = pos 0;
    rotation = record {
      max_size = pos 0;
      max_backups = pos 0;
      max_age = pos 0;
      compress = false;
      local_time = false;
    };
  };
  error_pages = [];
  filters = [];
  handlers = (codes "static", codes "fs") ∷ [];
  routes =
      record {
        path = codes "/";
        match = codes "prefix";
        methods = [];
        filters = [];
        rewrite = [];
        rewrite_append_query_string = false;
        handler = codes "static";
        status = pos 0;
        status_message = [];
        next_if_not_found = false;
      }
      ∷ [];
  routes_cache = record { enable = false; expire = pos 0; interval = pos 0; max_entries = pos 0 };
  shutdown_timeout = [];
}
