-- ===== src/Lib.antt =====
-- Verification of the Decathlon app: an application that keeps a Shopify shop and the Decathlon
-- marketplace in step. Products and offers go to Decathlon as imports, which are followed until they
-- are done; orders of Decathlon become orders of Shopify, whose fulfilments and refunds go back to
-- Decathlon as shipments and refunds. The parts meet in the database: a product mapping that an
-- import has marked makes a variant eligible for offers and lets a line of an order be matched, and
-- the order mapping that the order import writes is what the handlers of an order look up.
--
-- Parts, and the files that model them:
--
--   Base               shared helpers: Boolean tests, lists and maps as lists of pairs; Base.Effects
--                      has the statements that change a state and may throw.
--   Decathlon.Csv      packages/decathlon/src/csv.ts (rowsToCsv) and splitCsvLine of
--                      packages/sync/src/adapters/decathlon.adapter.ts
--   Decathlon.Attributes   packages/decathlon/src/attributes.ts: ancestors of a category, its required
--                      attributes, entries of value lists
--   Decathlon.Http     packages/decathlon/src/http-client.ts: the loop of attempts of request and requestMultipart
--   Sync.Batching      packages/sync/src/batching.ts (chunk)
--   Sync.Gtin          isValidGtin of packages/sync/src/adapters/decathlon.adapter.ts
--   Sync.Money         JavaScript's numbers as an interface; packages/sync/src/pricing.ts
--   Sync.Lines         resolveLines of packages/sync/src/order-lifecycle.ts
--   Sync.Refunds       buildRefunds and buildCancellationRefunds of the same file
--   Sync.Store         the tables of prisma/schema.prisma and the statements on them in
--                      packages/database/src/repositories (sync-job, sync-log, fulfillment,
--                      order-mapping, sync-configuration, product-mapping); Sync.Store.Catalog has
--                      those of decathlon-catalog-reference and the lookups of mapping-rules,
--                      Sync.Store.Rules the writes of mapping-rules
--   Sync.Outside       what the handlers call: the Decathlon client, the tags of Shopify orders, and
--                      functions of the runtime on texts
--   Sync.Lifecycle     the helpers of OrderLifecycleSync (loadOrder, refreshOrderState, startJob, log)
--   Sync.Lifecycle.Refund     syncRefund, with the closures of its body as definitions of their own
--   Sync.Lifecycle.Shipment   resolveTracking, syncFulfillment, updateTracking
--   Sync.Lifecycle.Returns    syncReturns, applyReturn
--   Sync.Matching      packages/sync/src/matching.ts
--   Sync.Imports       the verdict of pollImportStatus of packages/sync/src/engine.ts, the delays of
--                      packages/sync/src/queues.ts and the chain of checks of worker/src/index.ts; failStalledImport
--   Sync.Imports.Reports   parseReportText of the Decathlon adapter and the merging of reports
--   Sync.Imports.Poll  pollImportStatus as a whole, with its writes
--   Sync.Catalog       packages/sync/src/catalog-cache.ts
--   Sync.Products      buildProductImportPayload and buildOfferImportPayload of
--                      packages/sync/src/adapters/decathlon.adapter.ts: Sizes has matchSizeInChart, Values
--                      the options and lists, Fillings one definition per required attribute of the switch
--   Sync.ProductSync   syncProduct, prepareProductImport, checkProduct and syncOffers of
--                      packages/sync/src/engine.ts; Shopify has normalizeShopifyProduct
--   Sync.OrderImport   importOrders and importOneOrder of the same file; Normalize has
--                      normalizeDecathlonOrder, ShopifyInput has buildShopifyOrderInput
--
-- A handler is a function on a World: the database, and the state of what lies outside. A read leaves
-- the outside as it is; a write returns the new outside also when it throws, since Decathlon may have
-- applied a request that it did not answer. The answers of the outside are functions of which a
-- theorem assumes only what it names. A throw keeps what was written before it.
--
-- Bounds: a number of a row or a quantity is a natural number; money is the interface NumOps, with
-- the one law that a theorem names where it needs it. The walk up the category tree has the 32
-- rounds of the source. The loop of chunk has as many rounds as there are items, since each round
-- takes at least one. The loop of request has maxRetries + 1 attempts, as in the source, and the
-- chain of checks 60, the number at which the worker gives up; the theorems show that neither
-- runs out of them.
--
-- A raw answer of Decathlon is a JSON value where the source reads it field by field, and a list
-- where the client has parsed it. The objects that the source uses as maps are lists of pairs with
-- one pair for a key, in the order in which the keys were first set.
--
-- Not modelled: dates, ids as random texts (a counter stands for them) and the summaries of requests
-- and answers in log rows; headers and URLs of requests; the parsing of catalogue answers; the
-- regular expressions and Unicode functions on texts, which are parameters; the web backend and
-- frontend, which are wiring around these parts; the parsing of webhooks; the queue library, so that
-- a job that throws is not run again: in the chain of checks every check is answered.
pub mod Base
pub mod Decathlon
pub mod Sync
