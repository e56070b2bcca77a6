-- ===== src/Config/Server.antt =====
-- pkg/config/config.go: the settings of the HTTP server.
use fasthttpd.Base.{Bool, false, Bytes, ℤ, pos}

-- The fields of `fasthttp.Server` that can be configured.
pub record Server : Type 0 where
  pub name : Bytes
  pub concurrency : ℤ
  pub read_buffer_size : ℤ
  pub write_buffer_size : ℤ
  pub max_conns_per_ip : ℤ
  pub max_requests_per_conn : ℤ
  pub max_request_body_size : ℤ
  pub read_timeout : ℤ
  pub write_timeout : ℤ
  pub idle_timeout : ℤ
  pub max_idle_worker_duration : ℤ
  pub tcp_keepalive_period : ℤ
  pub sleep_when_concurrency_limits_exceeded : ℤ
  pub disable_keepalive : Bool
  pub tcp_keepalive : Bool
  pub reduce_memory_usage : Bool
  pub disable_pre_parse_multipart_form : Bool
  pub log_all_errors : Bool
  pub secure_error_log_message : Bool
  pub disable_header_names_normalizing : Bool
  pub no_default_server_header : Bool
  pub no_default_date : Bool
  pub no_default_content_type : Bool
  pub close_on_shutdown : Bool
  pub stream_request_body : Bool

-- `Server{Name: name}`
unfoldable pub named_server : Bytes → Server
named_server name = record {
  name = name;
  concurrency = pos 0;
  read_buffer_size = pos 0;
  write_buffer_size = pos 0;
  max_conns_per_ip = pos 0;
  max_requests_per_conn = pos 0;
  max_request_body_size = pos 0;
  read_timeout = pos 0;
  write_timeout = pos 0;
  idle_timeout = pos 0;
  max_idle_worker_duration = pos 0;
  tcp_keepalive_period = pos 0;
  sleep_when_concurrency_limits_exceeded = pos 0;
  disable_keepalive = false;
  tcp_keepalive = false;
  reduce_memory_usage = false;
  disable_pre_parse_multipart_form = false;
  log_all_errors = false;
  secure_error_log_message = false;
  disable_header_names_normalizing = false;
  no_default_server_header = false;
  no_default_date = false;
  no_default_content_type = false;
  close_on_shutdown = false;
  stream_request_body = false;
}

-- A `fasthttp.Server`: the fields above, and those that are set elsewhere.
pub record FastServer (Other : Type 0) : Type 0 where
  pub fields : Server
  pub other : Other

unfoldable pub apply_to : {Other : Type 0} → Server → FastServer Other → FastServer Other
apply_to s dst = record dst {
  fields = record dst.fields {
    name = s.name;
    concurrency = s.concurrency;
    read_buffer_size = s.read_buffer_size;
    write_buffer_size = s.write_buffer_size;
    max_conns_per_ip = s.max_conns_per_ip;
    max_requests_per_conn = s.max_requests_per_conn;
    max_request_body_size = s.max_request_body_size;
    read_timeout = s.read_timeout;
    write_timeout = s.write_timeout;
    idle_timeout = s.idle_timeout;
    max_idle_worker_duration = s.max_idle_worker_duration;
    tcp_keepalive_period = s.tcp_keepalive_period;
    sleep_when_concurrency_limits_exceeded = s.sleep_when_concurrency_limits_exceeded;
    disable_keepalive = s.disable_keepalive;
    tcp_keepalive = s.tcp_keepalive;
    reduce_memory_usage = s.reduce_memory_usage;
    disable_pre_parse_multipart_form = s.disable_pre_parse_multipart_form;
    log_all_errors = s.log_all_errors;
    secure_error_log_message = s.secure_error_log_message;
    disable_header_names_normalizing = s.disable_header_names_normalizing;
    no_default_server_header = s.no_default_server_header;
    no_default_date = s.no_default_date;
    no_default_content_type = s.no_default_content_type;
    close_on_shutdown = s.close_on_shutdown;
    stream_request_body = s.stream_request_body;
  };
}
