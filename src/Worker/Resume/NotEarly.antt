-- ===== src/Worker/Resume/NotEarly.antt =====
-- The wait does not end early.
use icloud_code_gateway.Worker.Environment.{Environment}
