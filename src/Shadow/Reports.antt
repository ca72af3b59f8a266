-- ===== src/Shadow/Reports.antt =====
-- What shadow mode reports, and what the client sees of it.
