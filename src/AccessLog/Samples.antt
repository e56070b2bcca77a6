-- ===== src/AccessLog/Samples.antt =====
-- pkg/logger/accesslog: a request whose headers hold quotes and tabs.
use fasthttpd.Base.{false, none, [], ◌∷◌, ◌++◌, codes, pos}
use fasthttpd.AccessLog.Context.{ip4, tcp_addr, Context}

abbrev pub sample_context : Context
sample_context = record {
  time = record {
    year = pos 2026;
    month = 4;
    day = 11;
    hour = 10;
    minute = 19;
    second = 13;
    year_day = 101;
    weekday = 6;
    iso_week = 15;
    unix = pos 1775870353;
    zone = pos 32400;
    format = λ layout. layout;
    year_day_after = λ d. 364;
  };
  remote_addr = tcp_addr (ip4 (codes "10.0.0.1")) (pos 4000);
  x_forwarded_for = codes "1" ++ b'"' ∷ codes ":2";
  username = [];
  method = codes "GET";
  request_uri = b'/' ∷ 9 ∷ 10 ∷ [];
  protocol = codes "HTTP/1.1";
  scheme = codes "http";
  host = codes "a.example";
  status_code = pos 200;
  content_length = pos 5;
  raw_headers = 20;
  body = 0;
  duration = pos 30;
  referer = [];
  user_agent = codes "ua";
  local_addr = tcp_addr (ip4 (codes "10.0.0.2")) (pos 80);
  remote_ip = codes "10.0.0.1";
  path = codes "/";
  query_string = [];
  original_uri = codes "/a" ++ b'"' ∷ [];
  conn_request_num = 1;
  id = 7;
  connection_close = false;
  cookie = λ name. [];
  request_header = λ name. name;
  response_header = λ name. [];
  response_headers = 40;
  response_body = 5;
  lookup_env = λ name. none;
  egid = pos 1000;
}
