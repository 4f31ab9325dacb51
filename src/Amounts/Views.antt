-- ===== src/Amounts/Views.antt =====
-- What kasAmountView of src/amount-display.ts shows, and parseKasAmount of it.
