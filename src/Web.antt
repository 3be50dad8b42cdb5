-- ===== src/Web.antt =====
-- net_services.c: the requests of the web interface. `mg_get_http_var` of mongoose is a parameter, the
-- variables of a query; Json has the texts of the answers, and Serve a request as a whole.
pub mod Defs
pub mod Runtimes
pub mod Safety
pub mod Changes
pub mod Requests
pub mod Json
pub mod Serve
pub mod Texts
pub mod Held
