-- ===== src/Lib.antt =====
-- Verification of the ball game repository: the search and the menus of its documentation, and its
-- server.
--
-- The repository holds a multiplayer ball game in C (src/, include/) and its documentation site
-- (docs/html), whose pages search the documentation by JavaScript. The files of this library model
--
--   docs/html/search/search.js      the search panel of every page and the search results page
--   docs/html/search/searchdata.js  the tables of sections that the panel reads
--   docs/html/search/all_0.js, ...  the tables of entries, a file for each page of results
--   docs/html/menu.js, menudata.js  the menu of every page
--   docs/html/dynsections.js        the directory tree of the pages, and what folds away on them
--   src/server/task.c               the server's queue of tasks
--   src/server/loaclball.c          the balls of the game
--   src/server/localball_list.c     the commands on velocities, and the list of balls in memory
--   src/server/localballmanager.c   adding and deleting balls, the dispatch of commands
--   src/server/client_list_manager.c
--                                   the list of clients
--   src/server/server.c, main.c     what the threads do with the two lists
--
-- How the parts interact. The panel (object `SearchBox`) stands on every page. Its handlers react to
-- the text field, to the menu of sections and to timers; `Search` turns the term into the address of
-- a results page, which is loaded into a frame. The results page (object `SearchResults`) shows the
-- rows that match the term and is walked with the arrow keys; Escape and Up hand the focus back to
-- the panel. In the server the main thread pushes what it receives onto the task queue; workers pop from
-- it and change the balls, and another thread moves them. The main thread also adds a client, with its
-- first balls, when a connection comes; the client and its balls go when the connection ends, or on its
-- command.
--
-- Which file models what.
--
--   Text, Text/Laws        strings as lists of UTF-16 code units; replace, substr, indexOf, toString
--   ConvertId              `convertToId`, and its inverse
--   Host                   toLowerCase, escape, unescape and the conversion `text > 1`: functions of
--                          the browser, taken as a parameter; what the language says of the first
--                          three on ASCII is a hypothesis (`AsciiHost`) of SearchTables/Found only
--   Dom, Dom/Laws          elements as a tree; a place is a list of child indices from the element up
--   Results/Walk           `SearchResults.FindChildElement`; its recursive form is in Walk/Steps and Preorder
--   Results/Page           the state of the page, `Toggle`
--   Results/Search         `SearchResults.Search`
--   Results/Keys           `ProcessKeys`
--   Results/Nav, NavChild  `NavNext`, `NavPrev`, `Nav`, `NavChild`
--   Results/Build          `createResults`, `setKeyActions`, `setClassAttr`; what happens to a page
--                          that was built, in Build/Kept
--   Panel/State            the members of `SearchBox`, the elements that it writes, the timers
--   Panel/SearchData       indexSectionsWithContent, indexSectionNames, indexSectionLabels
--   Panel/Layout           `getXPos`, `getYPos`, `OnSearchSelectShow`, `OnSearchSelectHide`,
--                          `CloseSelectionWindow`
--   Panel/Query            `Search`, `Activate`, `OnSearchFieldFocus`, `CloseResultsWindow`
--   Panel/Select           `SelectItemCount`, `SelectItemSet`, `OnSelectItem`, `OnSearchSelectKey`
--   Panel/Init             `init_search`
--   Panel/Field            `OnSearchFieldChange`
--   Panel/Timers           the browser's events as a step relation, and which searches are pending
--   SearchTables           the tables `searchData`; what they keep to is checked in Checks, Found
--                          follows a term from the panel to the row on the page of its table, and
--                          Toggling opens the rows there
--   Menu                   `makeTree` of docs/html/menu.js, and the table of docs/html/menudata.js; the
--                          HTML is read back in Menu/Tags and Menu/Read; `initMenu` is in
--                          Menu/Init, with the calls of jQuery as a parameter
--   Directory              `updateStripes`, `toggleLevel` and `toggleFolder` of docs/html/dynsections.js;
--                          jQuery is a parameter, whose laws are in Directory/Query
--   Sections               `toggleVisibility` and `toggleInherit` of docs/html/dynsections.js, in the
--                          same way
--   Balls                  the balls of src/server/loaclball.c, and `speedUpBalls`, `speedDownBalls` and
--                          `moveBallList` of src/server/localball_list.c
--   Balls/Manager          `BallListManager` of src/server/localballmanager.c: `add_ball`, `delete_ball`,
--                          `delete_ball_by_socket`, `count_ball_by_owner`
--   Balls/Dispatch         `dispatch_command`, its handlers, and the loops over the list in memory
--   Clients                `ClientListManager` of src/server/client_list_manager.c
--   Memory                 nodes at addresses, `createNode`, `appendBall`; lists in memory against lists
--                          of their nodes in Memory/Chain, Cut, LinkedList, Append and Values
--   Server                 what the threads do with the two lists
--   Server/Handle          the events of the server, each with its broadcast, and any sequence of them
--   Server/Worker          `parseCommand` and a round of `worker_thread`; sscanf is a parameter
--   Server/Pipeline        what the main thread receives, through the queue to a worker
--   Server/Broadcast       `broadcast_ball_state`, `broadcast_ball_state_all` and the serialisation of
--                          src/server/localballmanager.c, which fails where strcat leaves its buffer
--   Server/Shutdown        the end of `main`, with the last rounds of the threads, and `manager_destroy`
--   Queue                  `TaskQueue` of src/server/task.c and include/server/task.h
--   Tests                  the listed theorems at concrete inputs, and runs of the definitions
--
-- How code and model correspond. A method takes the state and returns the new one. Where it reads a
-- member of null it returns `type_error`. What a handler does to the focus, to the page or to the
-- panel around it is data in its result (`Action`, `Focus`). A style length `n + 'px'` is the number n.
-- A function of the server that follows pointers is a command on a memory, a function from addresses to
-- nodes: it faults at NULL and at what is not allocated. What `malloc` and `rand` give is an argument;
-- floats, `snprintf` on a ball and the room on the stack for the arrays of `delete_ball` are a parameter
-- (`Machine`, in Balls). The int expressions of `create_logical_ball` wrap around at 32 bits.
-- The read of a freed node in `delete_ball` is kept as a list of such reads.
--
-- Bounds and fuel. The fuel of `FindChildElement` is the number of elements that it can visit below the
-- one it starts from, and one more: it visits none twice. `NavNext`, `NavPrev` and the loop for the
-- last child take fuel as an argument; each of their rounds takes another link, so the number of links
-- left, and one more, is enough. `toString` has one unit of fuel for each unit of its number. The task
-- queue holds 128 tasks, as in task.h; a critical section is one step, since the mutex lets no other
-- thread in, and so is an event of the server, whose critical sections concern different lists. 32
-- balls, of at most 255 characters each, fit the buffer of 8192 bytes of a broadcast
-- (Server/Broadcast/Room); nothing in the code bounds the number of balls. A loop over a list in memory takes fuel: one more than the length is enough, and the server's events take it from
-- the counter of the list.
--
-- What is not modelled. jQuery itself, which is another project's. Of the game: its
-- clients and the drawing. What several workers do at once is modelled
-- as the sequences of calls in Queue/Delivery and of events in Server, one worker from its pop to its
-- reply in Server/Pipeline. When the frame's address is set, what page it holds later is the
-- browser's matter. Numbers of balls and clients are not bounded by the size of an int. That the
-- broadcast of a worker runs without the mutexes of the lists is not modelled: an event is a step.
pub mod Base
pub mod Text
pub mod ConvertId
pub mod Dom
pub mod Host
pub mod Results
pub mod Panel
pub mod Menu
pub mod Directory
pub mod SearchTables
pub mod Sections
pub mod Balls
pub mod Clients
pub mod Server
pub mod Memory
pub mod Queue
mod Tests
