-- ===== src/Lib.antt =====
-- Runway: the core logic of the web client, frontend/src/core.
--
-- The client keeps one race state, the projection of the server's snapshots, and everything a team
-- sees is worked out from it; a host draws a board, which is validated and laid out before it is
-- saved; captures that cannot be sent are queued and flushed later.
--
-- The parts, and where they stand:
-- - Board: a board draft. Board/Crossing and Board/Validate are roadsIntersect and validateBoard of
--   frontend/src/core/editor/geometryUtils.ts, Board/Route is computeRouteOrder. Under Board/Route
--   stand the queue and the walks of its breadth-first search (Adjacent, Queue, Walk, Shortest,
--   Distance) and the order it lists (Listed); Board/Validate/Playable says what a board without
--   errors is.
-- - Editor: the draft that a designer edits, frontend/src/surfaces/editor. Editor/Powerups is
--   powerups.ts, and Editor/Editing is useWaypointEditing.ts over useBoardDraft.ts: Deleting has the
--   questions and their answers, Ids, Roles and Network what a draft keeps, Edits any sequence.
--   boardDraft.ts is Editor/Wire (buildBoardPayload, buildExportFile), Editor/RawFile and
--   Editor/Import (applyImportToDraft) and Editor/Loading (applyBoardToDraft, applyStoredDraft).
--   Under Import, File says what an export is when it is read and which drafts it holds in full;
--   Rows, Links and Sorted follow the rows through the loops to RoundTrip.
-- - Projection: the types and the helpers of frontend/src/core/projection/projectionStore.ts;
--   Projection/Raw is the wire snapshot, Projection/Snapshot is applySnapshot, and
--   Projection/Store the class ProjectionStore.
-- - Race: Race/Accessibility is computeRaceAccessibility of
--   frontend/src/core/map/raceAccessibility.ts, which reads a race state; Race/Moments is
--   diffMoments and createMomentTracker of frontend/src/core/game/raceMoments.ts, which reads two
--   successive ones (Celebrations, Rivals and Difference are diffMoments, Front and Best are about
--   what it shows, and Tracker is the rest);
--   Race/Result is frontend/src/surfaces/report/raceResult.ts, which reads the report of a race
--   that the server wrote; Race/Session is the index of races on the device,
--   frontend/src/core/game/raceSession.ts with hostSession.ts and teamSession.ts, which purges the
--   queue of a race that ended or was forgotten; Race/Session/Joining is resolveJoinTarget of
--   frontend/src/core/game/resolveJoinTarget.ts, which adds to that index, and
--   Race/Session/Refresh has refreshRaceStatuses and the paths.
-- - Sync: Sync/OfflineStore is the queue of frontend/src/core/projection/offlineStore.ts, and
--   Sync/SyncEngine the engine of syncEngine.ts beside it, which reads that queue and takes from
--   it what was sent. Sync/SyncEngine/Overlap has a step relation for calls of startSync that
--   interleave at their awaits, or whose read of the queue is refused; Flush is about a call that
--   nothing interrupts, Unsettled and Kept about what any steps leave in the queue.
-- - Realtime: the class WebsocketClient of frontend/src/core/projection/websocketClient.ts, which
--   hands each snapshot to the projection store, tells it the state of the connection, and connects
--   again. Realtime/Attempts and Realtime/Trying follow its events.
-- - Analytics: frontend/src/core/analytics: the class AnalyticsClient with what sendBatch of
--   transport.ts makes of a response; its callbacks are events. Bounded and Delivered are its
--   invariants.
-- - Http: frontend/src/core/api/http.ts with reportRequestFailure of
--   frontend/src/core/analytics/requestFailures.ts; a request adds to the ring of Diagnostics.
--   Trusted is about the backend that is chosen, Told about a request.
-- - Diagnostics: frontend/src/core/diagnostics/errorBuffer.ts; Diagnostics/Recent has the log that
--   the ring is compared with.
-- - Maps: frontend/src/core/game/mapSession.ts, the maps that the device may edit; Maps/Tokens has
--   the function that they stand for.
-- - Destination: frontend/src/surfaces/player/destination.ts, on distances in whole millimetres.
-- - Toasts: frontend/src/design-system/overlays/toastStore.ts; a timer that runs out is an event.
-- - Prelude: the lists, the association lists that stand for JavaScript objects and maps, the
--   stable sort, the integers, and the Boolean tests that the others share.
--
-- How the source is read:
-- - A function of the source is the definition of the same name. An interface is a record, a union
--   of literals a data type, `T | null` and an optional field an Option. An object with text keys
--   or a Map is a list of entries in insertion order; a Set of texts a list without repetition.
-- - A class or a closure is a record of its fields, and a method a function from it to the next
--   one, with what it returns. A listener is a number, and its calls are recorded.
-- - A promise that is awaited is its outcome; where two calls can interleave, a step relation.
-- - Numbers are natural, and coordinates are fixed-point integers: no floating-point rounding is
--   modelled. Reconnect intervals are in quarters of a millisecond, where all that occur are whole.
--
-- What is taken as an argument: Date.parse and the session of a team (applySnapshot), the cosine
-- and localeCompare (geometryUtils), the answers of the API client, the failures of IndexedDB
-- requests, those of reads and lookups too, and navigator.onLine (Sync), whether a write to localStorage succeeds (Race/Session,
-- Maps), the events of the browser's socket and timer (Realtime), what generateUUID returns (Editor),
-- redactSecrets with the wall-clock text of a fault (Diagnostics), and the origin of a URL, the answer
-- of fetch, what res.json() gives or rejects with, the error of a JSON body and routeShape, a table of regular expressions (Http).
-- IndexedDB's autoIncrement and its unique index are written out as the browser documents them, and
-- JSON.parse of an export that JSON.stringify wrote is its fields (Editor/Import/File). Object keys
-- stay in insertion order, as those of ids do that are not array indices.
--
-- Fuel: the search of computeRouteOrder runs on one step more than the board has waypoints. Each
-- waypoint enters its queue at most once, and Board/Route/Distance shows that this is enough for
-- every board. number_text of Prelude/Tests writes a number in as many steps as the number and one
-- more, which is more than its digits. No other function has fuel.
--
-- Not modelled: the user interface (React components and hooks), the map's rendering, uploads and the
-- typed wrappers of the API, the parsing of join codes and of routes by regular expressions, the
-- browser's devices, and the server under cmd and internal, which is written in another language.
mod Prelude
pub mod Board
pub mod Editor
pub mod Projection
pub mod Race
pub mod Sync
pub mod Realtime
pub mod Diagnostics
pub mod Http
pub mod Maps
pub mod Toasts
pub mod Destination
pub mod Analytics
