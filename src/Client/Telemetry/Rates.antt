-- ===== src/Client/Telemetry/Rates.antt =====
-- What the one-second timer shows.
