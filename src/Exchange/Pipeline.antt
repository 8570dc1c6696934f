-- ===== src/Exchange/Pipeline.antt =====
-- A generated OUT file on its way through the watcher.
