-- ===== src/Tx/Fee/Priced.antt =====
-- Every way of estimateFee to an estimate, internal/tx/fee.go, gives a good one or none.
