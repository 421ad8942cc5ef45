-- ===== src/HttpServer/Host.antt =====
-- firmware/components/http_server/src/http_server_host.cpp: the host has no HTTP server.
use esp32_dust_extraction.Common.{[], Text, codes, ◌==◌, if◌then◌else◌}
use esp32_dust_extraction.HttpServer.{HttpServer, nullptr}

abbrev pub unavailable : Text
unavailable = codes "ESP-IDF HTTP server is unavailable on the Linux host target"

unfoldable pub start : {W : Type 0} → HttpServer W → Text × HttpServer W
start server = (unavailable, server)

unfoldable pub stop : {W : Type 0} → HttpServer W → Text × HttpServer W
stop server = if server.native_handle == nullptr then ([], server) else (unavailable, server)
